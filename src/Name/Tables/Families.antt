-- ===== src/Name/Tables/Families.antt =====
-- pinktrace/name.c, `addrfams`: the address families that the code can name, in its order.
use Prim.Native.String.{String}
use pinktrace.Prelude.{List, [], ◌∷◌}

unfoldable pub family_names : List String
family_names =
    "AF_ALG" ∷ "AF_APPLETALK" ∷ "AF_ASH" ∷ "AF_ATMPVC" ∷ "AF_ATMSVC" ∷ "AF_AX25" ∷ "AF_BLUETOOTH"
    ∷ "AF_BRIDGE" ∷ "AF_CAIF" ∷ "AF_CAN" ∷ "AF_DECnet" ∷ "AF_ECONET" ∷ "AF_FILE" ∷ "AF_IB"
    ∷ "AF_IEEE802154" ∷ "AF_IMPLINK" ∷ "AF_INET" ∷ "AF_INET6" ∷ "AF_IPX" ∷ "AF_IRDA" ∷ "AF_ISDN"
    ∷ "AF_ISO" ∷ "AF_IUCV" ∷ "AF_KCM" ∷ "AF_KEY" ∷ "AF_LLC" ∷ "AF_LOCAL" ∷ "AF_MAX" ∷ "AF_MPLS"
    ∷ "AF_NETBEUI" ∷ "AF_NETLINK" ∷ "AF_NETROM" ∷ "AF_NFC" ∷ "AF_PACKET" ∷ "AF_PHONET" ∷ "AF_PPPOX"
    ∷ "AF_QIPCRTR" ∷ "AF_RDS" ∷ "AF_ROSE" ∷ "AF_ROUTE" ∷ "AF_RXRPC" ∷ "AF_SECURITY" ∷ "AF_SNA"
    ∷ "AF_SMC" ∷ "AF_TIPC" ∷ "AF_UNIX" ∷ "AF_UNSPEC" ∷ "AF_VSOCK" ∷ "AF_WANPIPE" ∷ "AF_X25"
    ∷ "AF_XDP" ∷ []
