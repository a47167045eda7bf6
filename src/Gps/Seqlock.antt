-- ===== src/Gps/Seqlock.antt =====
-- Reading the anchor (`get_pps_anchor` of gps_pps_time.h) while a writer's stores run beside it.
use esphome_gps_pps_ntp_serv.Base.{
  ℕ, zero, ◌+◌, ◌%◌, ◌<◌, ◌≡◌, ◌≢◌, ◌⊎◌, inl, inr, refl, ap, sym, some, List, [], ◌∷◌, arith,
  u32_mod, pos, eqb_ℤ, if◌then◌else◌, none,
}
use mathlib.Core.Path.{◌∙◌}
use esphome_gps_pps_ntp_serv.Gps.State.{PpsAnchor}
use esphome_gps_pps_ntp_serv.Gps.Anchor.{AnchorRead, get_pps_anchor}
use esphome_gps_pps_ntp_serv.Gps.AnchorStores.{
  Cell, Stores, IsWhole, Stores-IsWhole, Stores-trans, still,
}

-- What `get_pps_anchor` does with its first attempt.
outcome :
    (r : AnchorRead) (rs : List AnchorRead)
    → ((r.before % 2 ≡ 0)
        × (r.after ≡ r.before)
        × (get_pps_anchor (r ∷ rs) ≡ (if eqb_ℤ r.copy.epoch (pos 0) then none else some r.copy)))
      ⊎ (get_pps_anchor (r ∷ rs) ≡ get_pps_anchor rs)
unfolding get_pps_anchor
outcome r rs = ground arith

-- One attempt of `get_pps_anchor` while the writer makes `n` stores: the number, then the three fields
-- at moments of their own, then the number again.
pub data Attempt (c : Cell) : ℕ → AnchorRead → Cell → Type 0 where
  attempt :
      {i j k l n : ℕ} {d e f u : Cell}
      → Stores c i d
      → Stores d j e
      → Stores e k f
      → Stores f l u
      → n ≡ i + j + k + l
      → Attempt c n
          (record {
            before = c.seq;
            copy = record {
              epoch = d.anchor.epoch;
              micros = e.anchor.micros;
              drift_ppb = f.anchor.drift_ppb;
            };
            after = u.seq;
          })
          u

-- Attempts one after another, with any stores between them, `n` stores in all.
pub data Attempts : Cell → ℕ → List AnchorRead → Type 0 where
  none_left : (c : Cell) → Attempts c zero []
  more :
      {c d e : Cell} {i j k n : ℕ} {r : AnchorRead} {rs : List AnchorRead}
      → Attempt c i r d
      → Stores d j e
      → Attempts e k rs
      → n ≡ i + j + k
      → Attempts c n (r ∷ rs)

-- An attempt that finds an even number, and the same one at its end, has copied the anchor whole.
Attempt-whole :
    {c u : Cell} {n : ℕ} {r : AnchorRead}
    → IsWhole c
    → Attempt c n r u
    → n < u32_mod
    → r.before % 2 ≡ 0
    → r.after ≡ r.before
    → r.copy ≡ c.latest
Attempt-whole h (attempt w1 w2 w3 w4 total) few even same =
    let (p, hp, w34) = Stores-trans w3 w4 in
    let (q, hq, w234) = Stores-trans w2 w34 in
    let (r, hr, w12) = Stores-trans w1 w2 in
    let (s, hs, w123) = Stores-trans w12 w3 in
    let atd = still h even w1 w234 (omega (arith, total, hp, hq)) same in
    let ate = still h even w12 w34 (omega (arith, total, hp, hr)) same in
    let atf = still h even w123 w4 (omega (arith, total, hr, hs)) same in
    ground (arith, h.whole, ap Cell.anchor atd, ap Cell.anchor ate, ap Cell.anchor atf)

taken :
    (copy a : PpsAnchor)
    → (if eqb_ℤ copy.epoch (pos 0) then none else some copy) ≡ some a
    → (copy ≡ a) × (a.epoch ≢ pos 0)
taken copy a h = (ground arith, λ z. ground arith)

Attempt-Stores : {c u : Cell} {n : ℕ} {r : AnchorRead} → Attempt c n r u → (k : ℕ) × Stores c k u
Attempt-Stores (attempt w1 w2 w3 w4 total) =
    let (_, _, w12) = Stores-trans w1 w2 in
    let (_, _, w123) = Stores-trans w12 w3 in let (k, _, all) = Stores-trans w123 w4 in (k, all)

Attempt-before : {c u : Cell} {n : ℕ} {r : AnchorRead} → Attempt c n r u → r.before ≡ c.seq
Attempt-before (attempt w1 w2 w3 w4 total) = refl

sound : {c : Cell} → IsWhole c → c.seq % 2 ≡ 0 → c.anchor ≡ c.latest
sound {c} h even = elim h.whole [ inl odd ↦ absurd (omega (arith, odd, even)) | inr whole ↦ whole ]

-- No publication is under way, and the anchor's three fields are those of `a`.
abbrev pub Holds : Cell → PpsAnchor → Type 0
Holds c a = (c.seq % 2 ≡ 0) × (c.anchor ≡ a) × (c.latest ≡ a)

-- At the beginning of one of the attempts the anchor was `a`.
abbrev pub BeganWith :
    {c : Cell} {n : ℕ} {rs : List AnchorRead} → Attempts c n rs → PpsAnchor → Type 0
BeganWith (none_left c) a = ⊥
BeganWith {c} (more w v ws total) a = Holds c a ⊎ BeganWith ws a

-- A reader of `get_pps_anchor` makes its attempts while the writer publishes beside it, with fewer than
-- 2^32 stores meanwhile. If it is given an anchor, then at the beginning of one of these attempts no
-- publication was under way, and the writer's three fields were the three that the reader is given, as
-- they were last published: they are never of different anchors. The epoch given is not 0.
pub get_pps_anchor-published :
    {c : Cell} {n : ℕ} {rs : List AnchorRead} {a : PpsAnchor}
    → IsWhole c
    → (read : Attempts c n rs) → n < u32_mod
    → get_pps_anchor rs ≡ some a
    → BeganWith read a × (a.epoch ≢ pos 0)
unfolding get_pps_anchor
get_pps_anchor-published h (none_left c) few e = cc
get_pps_anchor-published {c} h (more {r = r} {rs = rs} w v ws total) few e = elim (outcome r rs) [
  | inl (even, same, given) ↦
      let (copied, some_epoch) = taken r.copy _ (sym given ∙ e) in
      let whole = Attempt-whole h w (omega (arith, total)) even same in
      let begun = Attempt-before w in
      let latest = sym whole ∙ copied in
      (
        inl (omega (arith, begun, even), sound h (omega (arith, begun, even)) ∙ latest, latest),
        some_epoch,
      )
  | inr later ↦
      let (_, past) = Attempt-Stores w in
      let (_, _, upto) = Stores-trans past v in
      let (began, some_epoch) =
        get_pps_anchor-published (Stores-IsWhole upto h) ws (omega (arith, total))
          (sym later ∙ e) in
      (inr began, some_epoch)
]
