-- ===== src/Netpkt/SetBth.antt =====
-- What `roce_netpkt_set_bth` leaves in the base transport header.
use libroce.Base.{ℕ, ◌%◌, ◌^◌, ◌<◌, ◌≡◌, refl, Bool, false, some, arith}
use libroce.Ib.Bth.{
  Bth, IsBth, set_opcode, set_se, set_mig, set_padcnt, set_tver, set_pkey, set_fecn, set_becn,
  clear_resv1, set_destqp, set_ack, clear_resv2, set_psn,
}
use libroce.Ib.Bth.Layout.{Layout, layout, bit}
use libroce.Ib.Bth.Flags.{
  layout-set_opcode, layout-set_se, layout-set_mig, layout-set_padcnt, layout-set_tver,
}
use libroce.Ib.Bth.Setters.{
  layout-set_pkey, layout-set_fecn, layout-set_becn, layout-clear_resv1, layout-set_destqp,
  layout-set_ack, layout-clear_resv2, layout-set_psn,
}
use libroce.Ib.Bth.Valid.{
  set_opcode-IsBth, set_se-IsBth, set_mig-IsBth, set_padcnt-IsBth, set_tver-IsBth, set_pkey-IsBth,
  set_fecn-IsBth, set_becn-IsBth, clear_resv1-IsBth, set_destqp-IsBth, set_ack-IsBth,
  clear_resv2-IsBth, set_psn-IsBth,
}
use libroce.Netpkt.{default_pkey, set_bth_fields, set_bth}
use libroce.Qp.{QpType, smi, gsi, rc, uc, rd, ud, max, qp_type_to_ib}

-- The header that the arguments ask for.
abbrev pub asked : ℕ → ℕ → Bool → ℕ → ℕ → Bool → ℕ → Layout
asked ib opcode se padcnt destqp ack psn = record {
  qp_type = ib;
  opcode = opcode;
  se = bit se;
  mig = 0;
  padcnt = padcnt % 2 ^ 2;
  tver = 0;
  pkey = default_pkey;
  fecn = 0;
  becn = 0;
  resv1 = 0;
  destqp = destqp % 2 ^ 24;
  ack = bit ack;
  resv2 = 0;
  psn = psn % 2 ^ 24;
}

-- A valid header with the layout `l`: what one call of the chain hands to the next.
abbrev Reads : Bth → Layout → Type 0
Reads h l = IsBth h × (layout h ≡ l)

module _ {h : Bth} {l : Layout} (r : Reads h l) where
  opcode_step :
      (ib opcode : ℕ)
      → ib < 2 ^ 3
      → opcode < 2 ^ 5
      → Reads (set_opcode h ib opcode) (record l { qp_type = ib; opcode = opcode })
  opcode_step ib opcode hi ho =
      (set_opcode-IsBth h r.0 ib opcode, rw (← r.1) (layout-set_opcode h ib opcode hi ho))

  se_step : (se : Bool) → Reads (set_se h se) (record l { se = bit se })
  se_step se = (set_se-IsBth h r.0 se, rw (← r.1) (layout-set_se h se r.0))

  mig_step : (mig : Bool) → Reads (set_mig h mig) (record l { mig = bit mig })
  mig_step mig = (set_mig-IsBth h r.0 mig, rw (← r.1) (layout-set_mig h mig r.0))

  padcnt_step : (n : ℕ) → Reads (set_padcnt h n) (record l { padcnt = n % 2 ^ 2 })
  padcnt_step n = (set_padcnt-IsBth h r.0 n, rw (← r.1) (layout-set_padcnt h n r.0))

  tver_step : (n : ℕ) → Reads (set_tver h n) (record l { tver = n % 2 ^ 4 })
  tver_step n = (set_tver-IsBth h r.0 n, rw (← r.1) (layout-set_tver h n r.0))

  pkey_step : (n : ℕ) → n < 2 ^ 16 → Reads (set_pkey h n) (record l { pkey = n })
  pkey_step n hn = (set_pkey-IsBth h r.0 n, rw (← r.1) (layout-set_pkey h n hn))

  fecn_step : (b : Bool) → Reads (set_fecn h b) (record l { fecn = bit b })
  fecn_step b = (set_fecn-IsBth h r.0 b, rw (← r.1) (layout-set_fecn h b r.0))

  becn_step : (b : Bool) → Reads (set_becn h b) (record l { becn = bit b })
  becn_step b = (set_becn-IsBth h r.0 b, rw (← r.1) (layout-set_becn h b r.0))

  resv1_step : Reads (clear_resv1 h) (record l { resv1 = 0 })
  resv1_step = (clear_resv1-IsBth h r.0, rw (← r.1) (layout-clear_resv1 h r.0))

  destqp_step : (n : ℕ) → Reads (set_destqp h n) (record l { destqp = n % 2 ^ 24 })
  destqp_step n = (set_destqp-IsBth h r.0 n, rw (← r.1) (layout-set_destqp h n r.0))

  ack_step : (b : Bool) → Reads (set_ack h b) (record l { ack = bit b })
  ack_step b = (set_ack-IsBth h r.0 b, rw (← r.1) (layout-set_ack h b r.0))

  resv2_step : Reads (clear_resv2 h) (record l { resv2 = 0 })
  resv2_step = (clear_resv2-IsBth h r.0, rw (← r.1) (layout-clear_resv2 h r.0))

  psn_step : (n : ℕ) → Reads (set_psn h n) (record l { psn = n % 2 ^ 24 })
  psn_step n = (set_psn-IsBth h r.0 n, rw (← r.1) (layout-set_psn h n r.0))

module _ (h : Bth) (v : IsBth h) (ib opcode : ℕ) (se : Bool) (padcnt destqp : ℕ) (ack : Bool)
    (psn : ℕ) where
  set_bth_fields-Reads :
      ib < 2 ^ 3
      → opcode < 2 ^ 5
      → Reads
          (set_bth_fields h ib opcode se padcnt destqp ack psn)
          (asked ib opcode se padcnt destqp ack psn)
  unfolding set_bth_fields
  set_bth_fields-Reads hi ho =
      let r1 : Reads _ _ = opcode_step (v, refl) ib opcode hi ho in
      let r2 : Reads _ _ = padcnt_step (mig_step (se_step r1 se) false) padcnt in
      let r3 : Reads _ _ = pkey_step (tver_step r2 0) default_pkey (omega arith) in
      let r4 : Reads _ _ = resv1_step (becn_step (fecn_step r3 false) false) in
      psn_step (resv2_step (ack_step (destqp_step r4 destqp) ack)) psn

ib-lt : (qp_type : QpType) {ib : ℕ} → qp_type_to_ib qp_type ≡ some ib → ib < 2 ^ 3
unfolding qp_type_to_ib
ib-lt smi e = ground arith
ib-lt gsi e = ground arith
ib-lt rc e = ground arith
ib-lt uc e = ground arith
ib-lt rd e = ground arith
ib-lt ud e = ground arith
ib-lt max e = ground arith

-- For a queue pair type that has a number `ib`, an operation code of five digits and a valid
-- header, `set_bth` returns a valid header that holds what its arguments ask for in every field:
-- numbers too long for theirs are cut, and nothing is left of the header that stood there before.
pub layout-set_bth :
    (h : Bth) (qp_type : QpType) (ib opcode : ℕ) (se : Bool) (padcnt destqp : ℕ) (ack : Bool)
    (psn : ℕ)
    → IsBth h
    → opcode < 2 ^ 5
    → qp_type_to_ib qp_type ≡ some ib
    → (h' : Bth) × (set_bth h qp_type opcode se padcnt destqp ack psn ≡ some h')
      × IsBth h'
      × (layout h' ≡ asked ib opcode se padcnt destqp ack psn)
unfolding set_bth
layout-set_bth h qp_type ib opcode se padcnt destqp ack psn v ho e =
    let r : Reads (set_bth_fields h ib opcode se padcnt destqp ack psn) _ =
      set_bth_fields-Reads h v ib opcode se padcnt destqp ack psn (ib-lt qp_type e) ho in
    (set_bth_fields h ib opcode se padcnt destqp ack psn, rw (e, set_bth), r.0, r.1)
