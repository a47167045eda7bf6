-- ===== src/Gps/Anchor.antt =====
-- Reading the anchor under its seqlock (`get_pps_anchor` of gps_pps_time.h), and the crystal rate.
use esphome_gps_pps_ntp_serv.Base.{
  ℕ, ◌%◌, ◌==◌, Option, none, some, List, [], ◌∷◌, ℤ, pos, ◌*ℤ◌, ◌-ℤ◌, div_trunc, eqb_ℤ, cast_i32,
  replicate, if◌then◌else◌,
}
use esphome_gps_pps_ntp_serv.Gps.State.{PpsAnchor, GpsPpsTime}

-- What one attempt saw: the sequence number, the copy, and the number afterwards.
pub record AnchorRead : Type 0 where
  pub before : ℕ
  pub copy : PpsAnchor
  pub after : ℕ

-- The attempts, four in the source; an anchor with epoch 0 is none.
unfoldable pub get_pps_anchor : List AnchorRead → Option PpsAnchor
get_pps_anchor [] = none
get_pps_anchor (r ∷ rs) =
    let again = get_pps_anchor rs in
    if r.before % 2 == 1
    then again
    else if r.after == r.before
    then if eqb_ℤ r.copy.epoch (pos 0) then none else some r.copy
    else again

-- The attempts of a reader that no writer interrupts.
abbrev pub quiet_reads : GpsPpsTime → List AnchorRead
quiet_reads s =
    replicate 4 (record { before = s.anchor_seq; copy = s.anchor; after = s.anchor_seq })

abbrev pub pps_capture_hz : ℕ
pps_capture_hz = 80000000

unfoldable pub pps_capture_ppb : GpsPpsTime → ℤ
pps_capture_ppb s =
    if s.pps_cap_interval == 0
    then pos 0
    else cast_i32 (
        div_trunc ((pos s.pps_cap_interval -ℤ pos pps_capture_hz) *ℤ pos 1000000000) pps_capture_hz)

unfoldable pub pps_capture_ppb_mean : GpsPpsTime → ℤ
pps_capture_ppb_mean s = div_trunc s.pps_cap_ppb_mean_x256 256

unfoldable pub get_last_sync_epoch : GpsPpsTime → ℤ
get_last_sync_epoch s = if s.pps_synced then s.last_gps_epoch else pos 0
