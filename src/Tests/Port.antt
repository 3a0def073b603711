-- ===== src/Tests/Port.antt =====
-- The identifiers of a port.
use libroce.Base.{
  ℕ, ◌≤◌, ◌≡◌, ◌≢◌, ◌↔◌, refl, List, [], ◌∷◌, none, some, pos, ebusy, arith, length, replicate,
}
use libroce.Port.{Port, add_gid, del_gid, get_gid, zero_gid}
use libroce.Port.Gids.{found, add_gid-del_gid, gid-none}

abbrev port : Port
port = record {
  attr = record {
    max_mtu = 4096;
    active_mtu = 1024;
    gid_tbl_len = 8;
    pkey_tbl_len = 1;
    max_msg_sz = 33554432;
  };
  vnet_hdr = 0;
  gids = replicate 8 zero_gid;
  mac = [];
}

abbrev gid : List ℕ
gid = 0 ∷ 0 ∷ 0 ∷ 0 ∷ 0 ∷ 0 ∷ 0 ∷ 0 ∷ 0 ∷ 0 ∷ 255 ∷ 255 ∷ 10 ∷ 0 ∷ 0 ∷ 1 ∷ []

second_free : found port 1 ≡ some (ebusy, [])
unfolding get_gid
second_free = refl

add_gid-del_gid_example :
    (q : Port) × (r : Port) × (add_gid port 1 1 gid ≡ some (pos 0, q))
    × (found q 1 ≡ some (pos 0, gid))
    × (add_gid q 1 1 gid ≡ some (ebusy, q))
    × (del_gid q 1 1 ≡ some (pos 0, r))
    × (found r 1 ≡ some (ebusy, []))
    × ((j : ℕ) → 1 ≢ j → (found q j ≡ found port j) × (found r j ≡ found port j))
add_gid-del_gid_example = add_gid-del_gid port 1 gid (omega arith) refl second_free

gid-none_example :
    ((add_gid port 1 8 gid ≡ none) ↔ (length port.gids ≤ 8))
    × ((del_gid port 1 8 ≡ none) ↔ (length port.gids ≤ 8))
    × ((get_gid port 1 8 gid ≡ none) ↔ (length port.gids ≤ 8))
gid-none_example = gid-none port 8 gid
