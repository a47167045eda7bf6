-- ===== src/HookRing/Seqlock.antt =====
-- The seqlock of a slot of hook_ring.h: a reader that overlaps the writer never takes a torn copy.
-- The writer's stores are steps of their own, in the order that the fences keep.
use esphome_gps_pps_ntp_serv.Base.{
  ℕ, zero, suc, ◌+◌, ◌%◌, ◌≤◌, ◌<◌, ◌≡◌, refl, ap, List, arith, u32, u32_mod,
}
use esphome_gps_pps_ntp_serv.HookRing.{Slot}

module _ {Info : Type 0} where
  -- One store of `record`. Between `start` and `finish` the key and the information may hold anything,
  -- a byte at a time; `finish` comes when they hold a whole record.
  pub data Store : Slot Info → Slot Info → Type 0 where
    start : (s : Slot Info) → s.seq % 2 ≡ 0 → Store s (record s { seq = u32 (s.seq + 1) })
    write_key : (s : Slot Info) (k : List ℕ) → s.seq % 2 ≡ 1 → Store s (record s { key = k })
    write_info : (s : Slot Info) (i : Info) → s.seq % 2 ≡ 1 → Store s (record s { info = i })
    finish : (s : Slot Info) → s.seq % 2 ≡ 1 → Store s (record s { seq = u32 (s.seq + 1) })

  -- `n` stores, one after another.
  pub data Stores (s : Slot Info) : ℕ → Slot Info → Type 0 where
    here : Stores s zero s
    next : {n : ℕ} {t u : Slot Info} → Stores s n t → Store t u → Stores s (suc n) u

  -- How far the sequence number has gone; and if it has not gone at all, nothing has been stored.
  record Progress (s t : Slot Info) (n m : ℕ) : Type 0 where
    few : m ≤ n
    gone : t.seq ≡ u32 (s.seq + m)
    idle : m ≡ 0 → s.seq % 2 ≡ 0 → t ≡ s

  one_more :
      {s t u : Slot Info} {n m : ℕ}
      → s.seq < u32_mod
      → Progress s t n m
      → Store t u
      → (m' : ℕ) × Progress s u (suc n) m'
  one_more {m = m} h p (start t even) =
      (m + 1, record { few = ground arith; gone = ground arith; idle = ground arith })
  one_more {s} {t = old} {m = m} h p (write_key t k odd) =
      (m, record { few = ground arith; gone = p.gone; idle = λ z e. absurd (stuck z e) })
    where
      stuck : m ≡ 0 → s.seq % 2 ≡ 0 → ⊥
      stuck z e = ground (arith, p.idle z e)
  one_more {s} {t = old} {m = m} h p (write_info t i odd) =
      (m, record { few = ground arith; gone = p.gone; idle = λ z e. absurd (stuck z e) })
    where
      stuck : m ≡ 0 → s.seq % 2 ≡ 0 → ⊥
      stuck z e = ground (arith, p.idle z e)
  one_more {m = m} h p (finish t odd) =
      (m + 1, record { few = ground arith; gone = ground arith; idle = ground arith })

  Stores-Progress :
      {s t : Slot Info} {n : ℕ} → s.seq < u32_mod → Stores s n t → (m : ℕ) × Progress s t n m
  Stores-Progress h here = (0, record { few = omega arith; gone = omega arith; idle = λ z e. refl })
  Stores-Progress h (next w st) = one_more h (Stores-Progress h w).1 st

  -- A reader finds an even sequence number at slot state `s`, copies while the writer makes any
  -- stores, and finds the same number at state `u`. With fewer than 2^32 stores meanwhile, the slot
  -- had at every moment `t` of the copy the key and the information that it had at `s`, when no
  -- write was under way: nothing that the reader copied is torn.
  pub read_not_torn :
      {s t u : Slot Info} {n k : ℕ}
      → s.seq < u32_mod
      → s.seq % 2 ≡ 0
      → Stores s n t
      → Stores t k u
      → n + k < u32_mod
      → u.seq ≡ s.seq
      → (t.key ≡ s.key) × (t.info ≡ s.info)
  read_not_torn {s} {t} {u} {n} {k} h even w w' few same =
      let (m, p) = Stores-Progress h w in
      let in_range : t.seq < u32_mod = omega (arith, p.gone) in
      let (m', p') = Stores-Progress in_range w' in
      let still : m ≡ 0 = omega (arith, p.gone, p'.gone, p.few, p'.few) in
      let same_slot : t ≡ s = p.idle still even in
      (ap (λ (x : Slot Info). x.key) same_slot, ap (λ (x : Slot Info). x.info) same_slot)
