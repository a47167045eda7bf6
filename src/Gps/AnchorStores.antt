-- ===== src/Gps/AnchorStores.antt =====
-- The single stores of the anchor's seqlock (`publish_pps_anchor_` of gps_pps_time.h).
use esphome_gps_pps_ntp_serv.Base.{
  ℕ, zero, suc, ◌+◌, ◌%◌, ◌≤◌, ◌<◌, ◌≡◌, ◌⊎◌, inl, inr, refl, ap, arith, u32, u32_mod, ℤ,
}
use mathlib.Core.Path.{◌∙◌}
use esphome_gps_pps_ntp_serv.Gps.State.{PpsAnchor, GpsPpsTime, publish_pps_anchor}

-- `anchor_seq_` and `anchor_`, with the anchor that was last published whole.
pub record Cell : Type 0 where
  pub seq : ℕ  -- uint32_t
  pub anchor : PpsAnchor
  pub latest : PpsAnchor

-- One store of `publish_pps_anchor_`; the fields are stored one by one, in any order.
pub data Store : Cell → Cell → Type 0 where
  start : (c : Cell) → c.seq % 2 ≡ 0 → Store c (record c { seq = u32 (c.seq + 1) })
  write_epoch :
      (c : Cell) (e : ℤ)
      → c.seq % 2 ≡ 1
      → Store c (record c { anchor = record c.anchor { epoch = e } })
  write_micros :
      (c : Cell) (m : ℕ)
      → c.seq % 2 ≡ 1
      → Store c (record c { anchor = record c.anchor { micros = m } })
  write_drift :
      (c : Cell) (d : ℤ)
      → c.seq % 2 ≡ 1
      → Store c (record c { anchor = record c.anchor { drift_ppb = d } })
  finish :
      (c : Cell) → c.seq % 2 ≡ 1 → Store c (record c { seq = u32 (c.seq + 1); latest = c.anchor })

-- `n` stores, one after another.
pub data Stores (c : Cell) : ℕ → Cell → Type 0 where
  here : Stores c zero c
  next : {n : ℕ} {d e : Cell} → Stores c n d → Store d e → Stores c (suc n) e

-- A cell with no write under way holds what was last published.
pub record IsWhole (c : Cell) : Type 0 where
  pub word : c.seq < u32_mod
  pub whole : (c.seq % 2 ≡ 1) ⊎ (c.anchor ≡ c.latest)

-- The cell of a state in which no write is under way.
abbrev pub cell_of : GpsPpsTime → Cell
cell_of s = record { seq = s.anchor_seq; anchor = s.anchor; latest = s.anchor }

-- `publish_pps_anchor_` is five such stores, and publishes its arguments.
pub publish-Stores :
    (s : GpsPpsTime) (epoch : ℤ) (micros : ℕ) (drift_ppb : ℤ)
    → s.anchor_seq % 2 ≡ 0
    → Stores (cell_of s) 5 (cell_of (publish_pps_anchor s epoch micros drift_ppb))
unfolding publish_pps_anchor
publish-Stores s epoch micros drift_ppb even =
    let c : Cell = cell_of s in
    let c1 : Cell = record c { seq = u32 (c.seq + 1) } in
    let odd : c1.seq % 2 ≡ 1 = omega arith in
    let c2 : Cell = record c1 { anchor = record c.anchor { epoch = epoch } } in
    let c3 : Cell = record c2 { anchor = record c2.anchor { micros = micros } } in
    let c4 : Cell = record c3 { anchor = record c3.anchor { drift_ppb = drift_ppb } } in
    let c5 : Cell = record c4 { seq = u32 (c4.seq + 1); latest = c4.anchor } in
    let stores : Stores c 5 c5 =
      next
        (next
          (next (next (next here (start c even)) (write_epoch c1 epoch odd))
            (write_micros c2 micros odd))
          (write_drift c3 drift_ppb odd))
        (finish c4 odd) in
    let twice : u32 (u32 (s.anchor_seq + 1) + 1) ≡ u32 (s.anchor_seq + 2) = omega arith in
    rw (← twice) stores

Store-IsWhole : {c d : Cell} → Store c d → IsWhole c → IsWhole d
Store-IsWhole (start c even) h = record { word = omega arith; whole = inl (omega (arith, h.word)) }
Store-IsWhole (write_epoch c e odd) h = record { word = h.word; whole = inl odd }
Store-IsWhole (write_micros c m odd) h = record { word = h.word; whole = inl odd }
Store-IsWhole (write_drift c d odd) h = record { word = h.word; whole = inl odd }
Store-IsWhole (finish c odd) h = record { word = omega arith; whole = inr refl }

pub Stores-IsWhole : {c d : Cell} {n : ℕ} → Stores c n d → IsWhole c → IsWhole d
Stores-IsWhole here h = h
Stores-IsWhole (next w st) h = Store-IsWhole st (Stores-IsWhole w h)

-- How far the number has gone; and where it has not, an even cell has not been stored to.
record Progress (c d : Cell) (n m : ℕ) : Type 0 where
  few : m ≤ n
  gone : d.seq ≡ u32 (c.seq + m)
  idle : m ≡ 0 → c.seq % 2 ≡ 0 → d ≡ c

abbrev Moved : Cell → Cell → ℕ → Type 0
Moved c d n = (m : ℕ) × Progress c d n m

counted :
    {c d e : Cell} {n m : ℕ}
    → c.seq < u32_mod
    → Progress c d n m
    → e.seq ≡ u32 (d.seq + 1)
    → Moved c e (suc n)
counted {m = m} h p e = (
  m + 1,
  record {
    few = omega (arith, p.few);
    gone = omega (arith, p.gone);
    idle = λ z _. absurd (omega arith);
  },
)

stored :
    {c d e : Cell} {n m : ℕ} → Progress c d n m → d.seq % 2 ≡ 1 → e.seq ≡ d.seq → Moved c e (suc n)
stored {c} {d} {m = m} p odd same = (
  m,
  record {
    few = omega (arith, p.few);
    gone = same ∙ p.gone;
    idle = λ z even. absurd (omega (arith, ap Cell.seq (p.idle z even)));
  },
)

Store-Moved :
    {c d e : Cell} {n m : ℕ} → c.seq < u32_mod → Progress c d n m → Store d e → Moved c e (suc n)
Store-Moved h p (start d even) = counted h p refl
Store-Moved h p (write_epoch d e odd) = stored p odd refl
Store-Moved h p (write_micros d e odd) = stored p odd refl
Store-Moved h p (write_drift d e odd) = stored p odd refl
Store-Moved h p (finish d odd) = counted h p refl

Stores-Moved : {c d : Cell} {n : ℕ} → c.seq < u32_mod → Stores c n d → Moved c d n
Stores-Moved h here = (0, record { few = omega arith; gone = omega arith; idle = λ z e. refl })
Stores-Moved h (next w st) = Store-Moved h (Stores-Moved h w).1 st

pub Stores-trans :
    {c d e : Cell} {n m : ℕ} → Stores c n d → Stores d m e → (k : ℕ) × (k ≡ n + m) × Stores c k e
Stores-trans {n = n} w here = (n, omega arith, w)
Stores-trans w (next v st) =
    let (k, sum, t) = Stores-trans w v in (suc k, omega (arith, sum), next t st)

-- Where the number has not changed over two stretches of stores, the cell between them is the first.
pub still :
    {c d u : Cell} {n m : ℕ}
    → IsWhole c
    → c.seq % 2 ≡ 0
    → Stores c n d
    → Stores d m u
    → n + m < u32_mod
    → u.seq ≡ c.seq
    → d ≡ c
still h even w v few same =
    let p = (Stores-Moved h.word w).1 in
    let q = (Stores-Moved (omega (arith, p.gone)) v).1 in
    p.idle (omega (arith, h.word, p.few, p.gone, q.few, q.gone)) even
