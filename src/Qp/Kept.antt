-- ===== src/Qp/Kept.antt =====
-- What every call of `roce_modify_qp` keeps, those that fail included.
use libroce.Base.{
  ℕ, ◌-◌, ◌==◌, ◌≤◌, ◌<◌, ◌≡◌, refl, sym, ap, ◌∙◌, ◌⊎◌, ==_iff, length, get_elem?-none_iff, inl,
  inr, ltb, leb, ℤ, pos, negsuc, zero, suc, ebusy, Bool, true, false, Bool-cases, Option-cases,
  arith, get_elem?, bit_and, if◌then◌else◌,
}
use libroce.Port.{valid_mtu, max_ports, max_pkey, gid_tbl_len}
use libroce.Netpkt.Eth.{gid_is_ipv4}
use libroce.Ah.{AhAttr}
use libroce.Wr.{has}
use libroce.Qp.Modify.{
  QpAttr, Limits, Qp, verify_qp_cap, Progress, failed, returned, going, when, set_attr,
  modify_state, modify_access, modify_pkey_index, modify_port, modify_qp_ah, same, modify_qkey,
  modify_path_mtu, modify_sq_psn, modify_rq_psn, modify_rd_atomic, modify_dest_rd_atomic,
  modify_cap, modify_dest, unsupported, modify,
}

-- The attributes are within the limits of the device; and against the queue pair `q₀` from before,
-- the sequence numbers of a queue pair that has packets on their way stay.
pub record IsKept (l : Limits) (q₀ q : Qp) : Type 0 where
  pub pkey_index : q.attr.pkey_index < max_pkey
  pub port_num : q.attr.port_num ≤ max_ports
  pub path_mtu : valid_mtu q.attr.path_mtu ≡ true
  pub cap : verify_qp_cap l q.attr.cap ≡ pos 0
  pub busy : q.busy ≡ q₀.busy
  pub fixed : q₀.busy ≡ true → (q.attr.sq_psn ≡ q₀.attr.sq_psn) × (q.psn ≡ q₀.psn)

-- The number of a port that the context does not have.
abbrev pub IsPast : Limits → QpAttr → Type 0
IsPast l a = (a.port_num ≡ 0) ⊎ (length l.max_mtus < a.port_num)

-- Wherever the call ends; what it reads out of bounds is the port that the caller names.
abbrev pub Keeps : Limits → QpAttr → Qp → Progress → Type 0
Keeps l a q₀ failed = IsPast l a
Keeps l a q₀ (returned ret q) = IsKept l q₀ q
Keeps l a q₀ (going q) = IsKept l q₀ q

module _ (l : Limits) (a : QpAttr) (q₀ : Qp) where
  when-Keeps :
      (mask flag : ℕ) (f : Qp → Progress) (p : Progress)
      → ((q : Qp) → IsKept l q₀ q → Keeps l a q₀ (f q))
      → Keeps l a q₀ p
      → Keeps l a q₀ (when mask flag f p)
  when-Keeps mask flag f failed h k = k
  when-Keeps mask flag f (returned ret q) h k = k
  when-Keeps mask flag f (going q) h k = elim (Bool-cases (has mask flag)) [
    | inl asked ↦ rw (asked, Keeps, when) (h q k)
    | inr not_asked ↦ rw (not_asked, Keeps, when) k
  ]

  module _ (q : Qp) (k : IsKept l q₀ q) where
    pkey_index-Keeps : Keeps l a q₀ (modify_pkey_index a q)
    unfolding modify_pkey_index
    pkey_index-Keeps = elim (Bool-cases (leb max_pkey a.pkey_index)) [
      | inl bad ↦ rw bad k
      | inr good ↦ rw good (record {
        pkey_index = ground arith;
        port_num = k.port_num;
        path_mtu = k.path_mtu;
        cap = k.cap;
        busy = k.busy;
        fixed = k.fixed;
      })
    ]

    port-Keeps : Keeps l a q₀ (modify_port a q)
    unfolding modify_port
    port-Keeps = elim (Bool-cases (ltb max_ports a.port_num)) [
      | inl bad ↦ rw bad k
      | inr good ↦ rw good (record {
        pkey_index = k.pkey_index;
        port_num = ground arith;
        path_mtu = k.path_mtu;
        cap = k.cap;
        busy = k.busy;
        fixed = k.fixed;
      })
    ]

    -- A change of attributes that none of the limits is about.
    unlimited :
        (f : QpAttr → QpAttr)
        → ((f q.attr).pkey_index ≡ q.attr.pkey_index)
        → ((f q.attr).port_num ≡ q.attr.port_num)
        → ((f q.attr).path_mtu ≡ q.attr.path_mtu)
        → ((f q.attr).cap ≡ q.attr.cap)
        → ((f q.attr).sq_psn ≡ q.attr.sq_psn)
        → Keeps l a q₀ (set_attr f q)
    unlimited f e₁ e₂ e₃ e₄ e₅ = record {
      pkey_index = omega (arith, k.pkey_index, e₁);
      port_num = omega (arith, k.port_num, e₂);
      path_mtu = ap valid_mtu e₃ ∙ k.path_mtu;
      cap = ap (verify_qp_cap l) e₄ ∙ k.cap;
      busy = k.busy;
      fixed = λ b. (e₅ ∙ (k.fixed b).0, (k.fixed b).1);
    }

    ah-Keeps : (ah : AhAttr) → length l.gids ≡ gid_tbl_len → Keeps l a q₀ (modify_qp_ah l ah q)
    unfolding modify_qp_ah
    ah-Keeps ah full = elim (Bool-cases (leb gid_tbl_len ah.sgid_index)) [
      | inl bad ↦ rw bad k
      | inr good ↦ elim (Option-cases (get_elem? l.gids ah.sgid_index)) [
        | inl past ↦
            let out = (get_elem?-none_iff l.gids ah.sgid_index).0 past in absurd (ground arith)
        | inr (sgid, found) ↦ elim (Bool-cases (same (gid_is_ipv4 sgid) (gid_is_ipv4 ah.gid))) [
          | inl s ↦
              rw (good, found, s)
                (unlimited (λ old. record old { ah_attr = ah }) refl refl refl refl refl)
          | inr s ↦ rw (good, found, s) k
        ]
      ]
    ]

    path_mtu-Keeps : Keeps l a q₀ (modify_path_mtu l a q)
    unfolding modify_path_mtu
    path_mtu-Keeps = elim (Bool-cases (valid_mtu a.path_mtu)) [
      | inr bad ↦ rw bad k
      | inl good ↦ elim (Bool-cases (a.port_num == 0)) [
        | inl z ↦ rw (good, z) (inl ((==_iff a.port_num 0).0 z))
        | inr n ↦ elim (Option-cases (get_elem? l.max_mtus (a.port_num - 1))) [
          | inl past ↦
              let out = (get_elem?-none_iff l.max_mtus (a.port_num - 1)).0 past in
              rw (good, n, past) (inr (ground arith))
          | inr (max_mtu, found) ↦ elim (Bool-cases (ltb max_mtu a.path_mtu)) [
            | inl over ↦ rw (good, n, found, over) k
            | inr fits ↦
                rw (good, n, found, fits)
                  (record {
                    pkey_index = k.pkey_index;
                    port_num = k.port_num;
                    path_mtu = good;
                    cap = k.cap;
                    busy = k.busy;
                    fixed = k.fixed;
                  })
          ]
        ]
      ]
    ]

    sq_psn-Keeps : Keeps l a q₀ (modify_sq_psn a q)
    unfolding modify_sq_psn
    sq_psn-Keeps = go q.busy refl
      where
        go :
            (b : Bool)
            → q.busy ≡ b
            → Keeps l a q₀ (
                if b
                then returned ebusy q
                else going
                    (record q { attr = record q.attr { sq_psn = a.sq_psn }; psn = a.sq_psn }))
        go true e = k
        go false e = record {
          pkey_index = k.pkey_index;
          port_num = k.port_num;
          path_mtu = k.path_mtu;
          cap = k.cap;
          busy = k.busy;
          fixed = λ b. absurd (clash (sym e ∙ k.busy ∙ b));
        }
          where
            clash : false ≡ true → ⊥
            clash e = cc

    cap-Keeps : Keeps l a q₀ (modify_cap l a q)
    unfolding modify_cap
    cap-Keeps = go (verify_qp_cap l a.cap) refl
      where
        go : (ret : ℤ) → verify_qp_cap l a.cap ≡ ret → Keeps l a q₀ (modify_cap l a q)
        go (pos zero) e =
            rw (e, Keeps, modify_cap)
              (record {
                pkey_index = k.pkey_index;
                port_num = k.port_num;
                path_mtu = k.path_mtu;
                cap = e;
                busy = k.busy;
                fixed = k.fixed;
              })
        go (pos (suc n)) e = rw (e, Keeps, modify_cap) k
        go (negsuc n) e = rw (e, Keeps, modify_cap) k

    state-Keeps : Keeps l a q₀ (modify_state a q)
    unfolding modify_state
    state-Keeps = unlimited (λ old. record old { qp_state = a.qp_state }) refl refl refl refl refl

    access-Keeps : Keeps l a q₀ (modify_access a q)
    unfolding modify_access
    access-Keeps =
        unlimited (λ old. record old { qp_access_flags = a.qp_access_flags }) refl refl refl refl
          refl

    qkey-Keeps : Keeps l a q₀ (modify_qkey a q)
    unfolding modify_qkey
    qkey-Keeps = unlimited (λ old. record old { qkey = a.qkey }) refl refl refl refl refl

    rq_psn-Keeps : Keeps l a q₀ (modify_rq_psn a q)
    unfolding modify_rq_psn
    rq_psn-Keeps = unlimited (λ old. record old { rq_psn = a.rq_psn }) refl refl refl refl refl

    rd_atomic-Keeps : Keeps l a q₀ (modify_rd_atomic a q)
    unfolding modify_rd_atomic
    rd_atomic-Keeps =
        unlimited (λ old. record old { max_rd_atomic = a.max_rd_atomic }) refl refl refl refl refl

    dest_rd_atomic-Keeps : Keeps l a q₀ (modify_dest_rd_atomic a q)
    unfolding modify_dest_rd_atomic
    dest_rd_atomic-Keeps =
        unlimited (λ old. record old { max_dest_rd_atomic = a.max_dest_rd_atomic }) refl refl refl
          refl refl

    dest-Keeps : Keeps l a q₀ (modify_dest a q)
    unfolding modify_dest
    dest-Keeps =
        unlimited (λ old. record old { dest_qp_num = a.dest_qp_num }) refl refl refl refl refl

-- `roce_modify_qp` where the first port has all its identifiers, on a queue pair whose attributes
-- are within the limits of the device (the index of the partition key, the number of the port, an
-- MTU that is valid, capabilities): whatever it is asked for and wherever it ends, early returns
-- with an error included, they still are; and if packets wait or are on their way, the sequence
-- numbers are those from before. It reads out of bounds only where the caller's attributes name a
-- port that is not there.
pub modify-Keeps :
    (l : Limits) (a : QpAttr) (mask : ℕ) (q : Qp)
    → length l.gids ≡ gid_tbl_len
    → IsKept l q q
    → Keeps l a q (modify l a mask q)
unfolding modify
modify-Keeps l a mask q full k = elim (Bool-cases (bit_and mask unsupported == 0)) [
  | inr bad ↦ rw (bad, Keeps, modify) k
  | inl good ↦
      let s = when-Keeps l a q in
      rw (good, modify)
        (s mask 0x100000 (modify_dest a) _ (dest-Keeps l a q) (
          s mask 0x80000 (modify_cap l a) _ (cap-Keeps l a q) (
            s mask 0x20000 (modify_dest_rd_atomic a) _ (dest_rd_atomic-Keeps l a q) (
              s mask 0x2000 (modify_rd_atomic a) _ (rd_atomic-Keeps l a q) (
                s mask 0x1000 (modify_rq_psn a) _ (rq_psn-Keeps l a q) (
                  s mask 0x10000 (modify_sq_psn a) _ (sq_psn-Keeps l a q) (
                    s mask 0x100 (modify_path_mtu l a) _ (path_mtu-Keeps l a q) (
                      s mask 0x40 (modify_qkey a) _ (qkey-Keeps l a q) (
                        s mask 0x80 (modify_qp_ah l a.ah_attr) _
                          (λ q' k'. ah-Keeps l a q q' k' a.ah_attr full)
                          (s mask 0x20 (modify_port a) _ (port-Keeps l a q) (
                            s mask 0x10 (modify_pkey_index a) _ (pkey_index-Keeps l a q) (
                              s mask 0x8 (modify_access a) _ (access-Keeps l a q) (
                                s mask 0x1 (modify_state a) (going q) (state-Keeps l a q)
                                  k)))))))))))))
]
