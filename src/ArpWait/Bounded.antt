-- ===== src/ArpWait/Bounded.antt =====
-- The wait of arp_wait.h ends, asks for the entry at most once, and says truly how it ended.
use esphome_gps_pps_ntp_serv.Base.{
  ℕ, zero, suc, ◌+◌, ◌≤◌, ◌<◌, ◌≡◌, ◌⊎◌, refl, true, false, Bool-cases, inl, inr, some, arith, ℤ,
  pos, pos_part, neg_part, ◌≤ℤ◌, ◌-ℤ◌, -ℤ_parts, cast_i32, leb_ℤ,
}
use mathlib.Core.Option
use esphome_gps_pps_ntp_serv.ArpWait.{ArpWaitResult, Callables, wait_loop, wait_for_arp}

-- b lies between lo and hi after a.
abbrev pub Later : ℤ → ℕ → ℕ → ℤ → Type 0
Later a lo hi b =
    (pos_part a + neg_part b + lo ≤ pos_part b + neg_part a)
    × (pos_part b + neg_part a ≤ pos_part a + neg_part b + hi)

-- The clock that `now_us` reads runs on: no call takes more than 0.1 s, no call turns it back, and a
-- sleep of one tick lets at least 1 us pass.
pub record IsClock {W : Type 0} (env : Callables W) (clock : W → ℤ) : Type 0 where
  pub reads : (w : W) → (env.now_us w).0 ≡ clock w
  pub now_runs : (w : W) → Later (clock w) 0 100000 (clock (env.now_us w).1)
  pub lookup_runs : (w : W) → Later (clock w) 0 100000 (clock (env.lookup w).1)
  pub sleep_runs : (w : W) → Later (clock w) 1 100000 (clock (env.sleep_1ms w))

-- The callables with a count of the ARP requests made.
abbrev pub counting : {W : Type 0} → Callables W → Callables (W × ℕ)
counting env = record {
  lookup = λ p. ((env.lookup p.0).0, ((env.lookup p.0).1, p.1));
  query = λ p. (env.query p.0, p.1 + 1);
  sleep_1ms = λ p. (env.sleep_1ms p.0, p.1);
  now_us = λ p. ((env.now_us p.0).0, ((env.now_us p.0).1, p.1));
}

-- A wait that ended: the entry was found, or `m` us or more went by and not over 0.3 s more than that.
pub record Ended (m : ℕ) (r : ArpWaitResult) : Type 0 where
  pub not_negative : pos 0 ≤ℤ r.waited_us
  pub bounded : r.waited_us ≤ℤ pos (m + 300000)
  pub gave_up_late : r.resolved ≡ false → pos m ≤ℤ r.waited_us
  pub missed : r.missed ≡ true

-- The elapsed time, a difference of two readings, survives the cast to 32 bits.
cast_elapsed :
    (start now : ℤ) (lo hi : ℕ)
    → hi < 2147483648
    → Later start lo hi now
    → let e = cast_i32 (now -ℤ start) in
      (neg_part e ≡ 0)
      × (pos_part start + neg_part now + pos_part e ≡ pos_part now + neg_part start)
cast_elapsed start now lo hi h l = ground (arith, -ℤ_parts now start)

-- The loop makes no request: it runs alike with the count, which it leaves alone.
counting_loop :
    {W : Type 0} (env : Callables W) (m : ℤ) (fuel : ℕ) (start : ℤ) (w : W) (k : ℕ)
    → wait_loop (counting env) m fuel start (w, k)
      ≡ Option.map (λ p. (p.0, (p.1, k))) (wait_loop env m fuel start w)
unfolding wait_loop
counting_loop env m zero start w k = refl
counting_loop {W} env m (suc fuel) start w k =
    let w2 : W = (env.now_us (env.sleep_1ms w)).1 in
    let e : ℤ = cast_i32 ((env.now_us (env.sleep_1ms w)).0 -ℤ start) in
    elim (Bool-cases (env.lookup w2).0) [
      | inl hit ↦ rw hit refl
      | inr miss ↦ elim (Bool-cases (leb_ℤ m e)) [
        | inl late ↦ rw (miss, late) refl
        | inr more ↦ rw (miss, more) (counting_loop env m fuel start (env.lookup w2).1 k)
      ]
    ]

-- The world in which a round of the wait looks the entry up.
abbrev pub asked : {W : Type 0} → Callables W → W → W
asked env w = (env.now_us (env.sleep_1ms w)).1

-- Rounds of the wait that all missed the entry.
pub data Missing {W : Type 0} (env : Callables W) : W → W → Type 0 where
  no_round : (w : W) → Missing env w w
  round :
      {w w' : W}
      → (env.lookup (asked env w)).0 ≡ false
      → Missing env (env.lookup (asked env w)).1 w'
      → Missing env w w'

-- From `w` on all lookups miss but the last one, which is the wait's verdict and leaves `w'`.
abbrev pub Told : {W : Type 0} → Callables W → W → ArpWaitResult → W → Type 0
Told {W} env w r w' = (v : W) × Missing env w v × (env.lookup (asked env v) ≡ (r.resolved, w'))

Told-at_once :
    {W : Type 0} (env : Callables W) (w : W) (r : ArpWaitResult)
    → (env.lookup (asked env w)).0 ≡ r.resolved
    → Told env w r (env.lookup (asked env w)).1
Told-at_once env w r e = (w, no_round w, ground (arith, e))

module _ {W : Type 0} (env : Callables W) (clock : W → ℤ) (law : IsClock env clock) where
  elapsed_exact :
      (m done : ℕ) (start : ℤ) (w : W)
      → m ≤ 1000000000
      → Later start done (m + 200000) (clock w)
      → let w1 = env.sleep_1ms w in
        let e = cast_i32 ((env.now_us w1).0 -ℤ start) in
        (neg_part e ≡ 0)
        × (pos_part start + neg_part (clock w1) + pos_part e ≡ pos_part (clock w1) + neg_part start)
  elapsed_exact m done start w hm hd =
      let w1 : W = env.sleep_1ms w in
      let slept = law.sleep_runs w in
      rw (law.reads w1)
        (cast_elapsed start (clock w1) (done + 1) (m + 300000) (omega arith) (omega arith))

  -- When the wait goes on, the next round begins with one more microsecond gone by.
  next_round :
      (m done : ℕ) (start : ℤ) (w : W)
      → m ≤ 1000000000
      → Later start done (m + 200000) (clock w)
      → let w1 = env.sleep_1ms w in
        let w2 = (env.now_us w1).1 in
        leb_ℤ (pos m) (cast_i32 ((env.now_us w1).0 -ℤ start)) ≡ false
        → Later start (done + 1) (m + 200000) (clock (env.lookup w2).1) × (done + 1 ≤ m)
  next_round m done start w hm hd more =
      let w1 : W = env.sleep_1ms w in
      let w2 : W = (env.now_us w1).1 in
      let exact = elapsed_exact m done start w hm hd in
      let slept = law.sleep_runs w in
      let read = law.now_runs w1 in let looked = law.lookup_runs w2 in ground arith

  wait_loop_ends :
      (m fuel done : ℕ) (start : ℤ) (w : W)
      → m ≤ 1000000000
      → m < fuel + done
      → done ≤ m
      → Later start done (m + 200000) (clock w)
      → (r : ArpWaitResult) × (w' : W) × (wait_loop env (pos m) fuel start w ≡ some (r, w'))
        × Ended m r
        × Told env w r w'
  unfolding wait_loop
  wait_loop_ends m zero done start w hm hf hle hd = absurd (omega arith)
  wait_loop_ends m (suc fuel) done start w hm hf hle hd =
      let w1 : W = env.sleep_1ms w in
      let w2 : W = (env.now_us w1).1 in
      let w3 : W = (env.lookup w2).1 in
      let e : ℤ = cast_i32 ((env.now_us w1).0 -ℤ start) in
      let bounds = elapsed_exact m done start w hm hd in
      let slept = law.sleep_runs w in
      elim (Bool-cases (env.lookup w2).0) [
        | inl hit ↦
            let r : ArpWaitResult = record { resolved = true; missed = true; waited_us = e } in
            (r, w3, rw hit, ground arith, Told-at_once env w r hit)
        | inr miss ↦ elim (Bool-cases (leb_ℤ (pos m) e)) [
          | inl late ↦
              let r : ArpWaitResult = record { resolved = false; missed = true; waited_us = e } in
              (r, w3, rw (miss, late), ground arith, Told-at_once env w r miss)
          | inr more ↦
              let next = next_round m done start w hm hd more in
              let (r, w', run, end, ends) =
                wait_loop_ends m fuel (done + 1) start w3 hm (omega arith) next.1 next.0 in
              let (v, missing, told) = ends in
              (r, w', rw (miss, more) run, end, (v, round miss missing, told))
        ]
      ]

  -- With a clock that no call turns back or moves on by more than 0.1 s, and a sleep moves on by at
  -- least 1 us, a bound of `m` us (at most 1000 s) and more rounds of fuel than `m`, the wait ends with
  -- a result. If the first lookup finds the entry, that is reported at once, with no request made and no
  -- wait. If it misses, exactly one request is made, and after it the entry is looked up until a lookup
  -- finds it or `m` us have gone by: all lookups but the last miss, the entry counts as resolved exactly
  -- if the last one finds it, the wait lasts 0 to `m` + 300000 us, and it is given up only after `m` us.
  pub wait_for_arp_ends :
      (m fuel n : ℕ) (w : W)
      → m ≤ 1000000000
      → m < fuel
      → (r : ArpWaitResult) × (w' : W) × (k : ℕ) × (wait_for_arp (counting env) (pos m) fuel (w, n)
          ≡ some (r, (w', k)))
        × ((env.lookup w ≡ (true, w'))
              × (k ≡ n)
              × (r ≡ record { resolved = true; missed = false; waited_us = pos 0 })
            ⊎ ((env.lookup w).0 ≡ false)
              × (k ≡ n + 1)
              × Ended m r
              × Told env (env.now_us (env.query (env.lookup w).1)).1 r w')
  unfolding wait_for_arp
  wait_for_arp_ends m fuel n w hm hf =
      let w1 : W = (env.lookup w).1 in
      let w2 : W = env.query w1 in
      let w3 : W = (env.now_us w2).1 in
      let read = law.now_runs w2 in
      let clock_read = law.reads w2 in
      elim (Bool-cases (env.lookup w).0) [
        | inl hit ↦ (
          record { resolved = true; missed = false; waited_us = pos 0 },
          w1,
          n,
          rw hit,
          inl (ground arith, refl, refl),
        )
        | inr miss ↦
            let (r, w', run, end, told) =
              wait_loop_ends m fuel 0 (env.now_us w2).0 w3 hm (omega arith) (omega arith)
                (rw clock_read (omega arith)) in
            (r, w', n + 1, rw miss (rw counting_loop (rw run refl)), inr (miss, refl, end, told))
      ]
