-- ===== src/Port.antt =====
-- port.c: the ports of a context, which are numbered from 1.
pub mod Gids
use libroce.Base.{
  ℕ, ◌-◌, ◌+◌, ◌*◌, List, [], ◌∷◌, Option, none, some, ℤ, pos, einval, ebusy, get_elem?, set,
  replicate, ◌==◌, ltb, ◌||◌, ◌&&◌, not, Bool, true, false, if◌then◌else◌,
}

-- `ROCE_MAX_PORTS`, `ROCE_GID_TBL_LEN`, `ROCE_GID_LEN`, `ROCE_MAX_PKEY` and `ROCE_MAX_VNET_HDR`.
abbrev pub max_ports : ℕ
max_ports = 1

abbrev pub gid_tbl_len : ℕ
gid_tbl_len = 8

abbrev pub gid_len : ℕ
gid_len = 16

abbrev pub max_pkey : ℕ
max_pkey = 1

abbrev pub max_vnet_hdr : ℕ
max_vnet_hdr = 16

-- The attributes that `roce_init_port` looks at.
pub record PortAttr : Type 0 where
  pub max_mtu : ℕ
  pub active_mtu : ℕ
  pub gid_tbl_len : ℕ
  pub pkey_tbl_len : ℕ
  pub max_msg_sz : ℕ

-- `struct roce_port`. An identifier is its sixteen bytes.
pub record Port : Type 0 where
  pub attr : PortAttr
  pub vnet_hdr : ℕ
  pub gids : List (List ℕ)
  pub mac : List ℕ

-- `roce_valid_mtu`.
unfoldable pub valid_mtu : ℕ → Bool
valid_mtu mtu = mtu == 1024 || mtu == 2048 || mtu == 4096

-- The test of a port's number that each call makes.
abbrev pub bad_port : ℕ → Bool
bad_port port = port == 0 || ltb max_ports port

-- The values that stand for zeros: those of the first table, and of the rest.
abbrev pub gid_default : PortAttr → PortAttr
gid_default a = record a { gid_tbl_len = if a.gid_tbl_len == 0 then gid_tbl_len else a.gid_tbl_len }

abbrev pub other_defaults : PortAttr → PortAttr
other_defaults a = record a {
  pkey_tbl_len = if a.pkey_tbl_len == 0 then max_pkey else a.pkey_tbl_len;
  max_msg_sz = if a.max_msg_sz == 0 then 33554432 else a.max_msg_sz;
}

-- `roce_init_port` on the port that the number names; there is one. The defaults are written to
-- the caller's attributes too, which are the last result.
unfoldable pub init_port : Port → ℕ → PortAttr → ℤ × Port × PortAttr
unfolding valid_mtu
init_port p port a =
    if bad_port port
    then (einval, p, a)
    else if not (valid_mtu a.max_mtu) || not (valid_mtu a.active_mtu)
    then (einval, p, a)
    else if ltb a.max_mtu a.active_mtu
    then (einval, p, a)
    else if ltb gid_tbl_len a.gid_tbl_len
    then (einval, p, a)
    else if ltb max_pkey a.pkey_tbl_len
    then (einval, p, gid_default a)
    else (pos 0, record p { attr = other_defaults (gid_default a) }, other_defaults (gid_default a))

unfoldable pub set_port_mac : Port → ℕ → List ℕ → ℤ × Port
set_port_mac p port mac = if bad_port port then (einval, p) else (pos 0, record p { mac = mac })

unfoldable pub set_port_vnet : Port → ℕ → ℕ → ℤ × Port
set_port_vnet p port vnet_hdr =
    if bad_port port
    then (einval, p)
    else if ltb max_vnet_hdr vnet_hdr
    then (einval, p)
    else (pos 0, record p { vnet_hdr = vnet_hdr })

unfoldable pub query_port : Port → ℕ → PortAttr → ℤ × PortAttr
query_port p port a = if bad_port port then (einval, a) else (pos 0, p.attr)

-- `roce_empty_gid`: every byte is zero.
abbrev pub all_zero : List ℕ → Bool
all_zero [] = true
all_zero (b ∷ bs) = b == 0 && all_zero bs

abbrev pub zero_gid : List ℕ
zero_gid = replicate gid_len 0

-- `roce_add_gid`. `none` is a read past the end of the table: the index is not tested.
unfoldable pub add_gid : Port → ℕ → ℕ → List ℕ → Option (ℤ × Port)
add_gid p port index gid =
    if bad_port port then some (einval, p) else elim (get_elem? p.gids index) [
      | none ↦ none
      | some old ↦
          if all_zero old
          then some (pos 0, record p { gids = set p.gids index gid })
          else some (ebusy, p)
    ]

unfoldable pub del_gid : Port → ℕ → ℕ → Option (ℤ × Port)
del_gid p port index = if bad_port port then some (einval, p) else elim (get_elem? p.gids index) [
  | none ↦ none
  | some old ↦
      if all_zero old
      then some (einval, p)
      else some (pos 0, record p { gids = set p.gids index zero_gid })
]

-- The result, and the bytes at `gid` afterwards.
unfoldable pub get_gid : Port → ℕ → ℕ → List ℕ → Option (ℤ × List ℕ)
get_gid p port index gid =
    if bad_port port then some (einval, gid) else elim (get_elem? p.gids index) [
      | none ↦ none
      | some old ↦ if all_zero old then some (ebusy, gid) else some (pos 0, old)
    ]
