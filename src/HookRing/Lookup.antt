-- ===== src/HookRing/Lookup.antt =====
-- What `lookup` of hook_ring.h returns: the newest acceptable record that it saw.
use esphome_gps_pps_ntp_serv.Base.{
  ℕ, zero, suc, ◌%◌, ◌<◌, ◌≡◌, ◌≢◌, ◌⊎◌, inl, inr, refl, ◌∙◌, Option, none, some, List, [], ◌∷◌,
  ◌++◌, length, arith, ℤ, ◌≤ℤ◌, ◌-ℤ◌, u32_mod,
}
use mathlib.Core.List.{Memᴰ}
use mathlib.Core.Path.{subst}
use esphome_gps_pps_ntp_serv.TalkerTable.Lookup.{same_bytes-eq, same_bytes_refl}
use esphome_gps_pps_ntp_serv.HookRing.{
  Observed, bytes_2, bytes_4, build_key, consider, lookup_from, lookup, max_age_us,
}

split_keys :
    (n : ℕ) (a a' r r' : List ℕ)
    → length a ≡ n
    → length a' ≡ n
    → a ++ r ≡ a' ++ r'
    → (a ≡ a') × (r ≡ r')
split_keys zero [] [] r r' h h' e = (refl, e)
split_keys zero [] (x ∷ a') r r' h h' e = absurd (omega arith)
split_keys zero (x ∷ a) a' r r' h h' e = absurd (omega arith)
split_keys (suc n) [] a' r r' h h' e = absurd (omega arith)
split_keys (suc n) (x ∷ a) [] r r' h h' e = absurd (omega arith)
split_keys (suc n) (x ∷ a) (y ∷ a') r r' h h' e = ground (arith, split_keys n a a' r r')

words-injective :
    (ip ip' port port' : ℕ)
    → ip < u32_mod
    → ip' < u32_mod
    → port < 65536
    → port' < 65536
    → bytes_4 ip ++ bytes_2 port ≡ bytes_4 ip' ++ bytes_2 port'
    → (ip ≡ ip') × (port ≡ port')
words-injective ip ip' port port' lt lt' p p' e = ground arith

-- The keys of two requests are the same bytes only if their transmit fields, addresses and ports
-- are the same.
pub build_key-injective :
    (tx tx' : List ℕ) (ip ip' port port' : ℕ)
    → length tx ≡ 8
    → length tx' ≡ 8
    → ip < u32_mod
    → ip' < u32_mod
    → port < 65536
    → port' < 65536
    → build_key tx ip port ≡ build_key tx' ip' port'
    → (tx ≡ tx') × (ip ≡ ip') × (port ≡ port')
unfolding build_key
build_key-injective tx tx' ip ip' port port' h h' lt lt' p p' e =
    let parts =
      split_keys 8 tx tx' (bytes_4 ip ++ bytes_2 port) (bytes_4 ip' ++ bytes_2 port') h h' e in
    let words = words-injective ip ip' port port' lt lt' p p' parts.1 in (parts.0, words.0, words.1)

-- Is a some-value no later than another? `none` comes before all.
abbrev pub NotAfter : {Info : Type 0} → (Info → ℤ) → Option Info → Option Info → Type 0
NotAfter time none b = Unit
NotAfter time (some a) none = ⊥
NotAfter time (some a) (some b) = time a ≤ℤ time b

module _ {Info : Type 0} (time : Info → ℤ) where
  NotAfter-refl : (a : Option Info) → NotAfter time a a
  NotAfter-refl none = tt
  NotAfter-refl (some a) = omega arith

  NotAfter-trans : (a b c : Option Info) → NotAfter time a b → NotAfter time b c → NotAfter time a c
  NotAfter-trans none b c h k = tt
  NotAfter-trans (some a) none c h k = absurd h
  NotAfter-trans (some a) (some b) none h k = absurd k
  NotAfter-trans (some a) (some b) (some c) h k = omega arith

module _ {Info : Type 0} (time : Info → ℤ) (key : List ℕ) (now : ℤ) where
  -- A slot that was read undisturbed, of the wanted key, and at most 1 s old.
  pub record IsAcceptable (o : Observed Info) : Type 0 where
    pub even : o.before % 2 ≢ 1
    pub steady : o.before ≡ o.after
    pub same_key : o.key ≡ key
    pub fresh : now -ℤ time o.info ≤ℤ max_age_us

  consider-source :
      (best : Option Info) (o : Observed Info)
      → (consider time key now best o ≡ best)
        ⊎ IsAcceptable o × (consider time key now best o ≡ some o.info)
  unfolding consider
  consider-source none o = ground (arith, same_bytes-eq o.key key)
  consider-source (some b) o = ground (arith, same_bytes-eq o.key key)

  consider_grows :
      (best : Option Info) (o : Observed Info) → NotAfter time best (consider time key now best o)
  unfolding consider
  consider_grows none o = tt
  consider_grows (some b) o = ground arith

  consider_takes :
      (best : Option Info) (o : Observed Info)
      → IsAcceptable o
      → NotAfter time (some o.info) (consider time key now best o)
  unfolding consider
  consider_takes none o ok = ground (arith, same_bytes_refl key)
  consider_takes (some b) o ok = ground (arith, same_bytes_refl key)

  -- Where the result of a scan comes from.
  pub data From (best : Option Info) (seen : List (Observed Info)) (r : Option Info) : Type 0 where
    start : r ≡ best → From best seen r
    slot : (o : Observed Info) → Memᴰ o seen → IsAcceptable o → r ≡ some o.info → From best seen r

  record Scan (best : Option Info) (seen : List (Observed Info)) (r : Option Info) : Type 0 where
    source : From best seen r
    from_best : NotAfter time best r
    from_slots : (o : Observed Info) → Memᴰ o seen → IsAcceptable o → NotAfter time (some o.info) r

  From-cons :
      (best : Option Info) (o : Observed Info) (os : List (Observed Info)) (r : Option Info)
      → From (consider time key now best o) os r
      → From best (o ∷ os) r
  From-cons best o os r (slot o' m ok e) = slot o' (Memᴰ.tail m) ok e
  From-cons best o os r (start e) = elim (consider-source best o) [
    | inl same ↦ start (e ∙ same)
    | inr (ok, taken) ↦ slot o (Memᴰ.head refl) ok (e ∙ taken)
  ]

  slots-cons :
      (best : Option Info) (o : Observed Info) (os : List (Observed Info)) (r : Option Info)
      → Scan (consider time key now best o) os r
      → (o' : Observed Info) → Memᴰ o' (o ∷ os)
      → IsAcceptable o'
      → NotAfter time (some o'.info) r
  slots-cons best o os r scan o' (Memᴰ.tail m) ok = scan.from_slots o' m ok
  slots-cons best o os r scan o' (Memᴰ.head e) ok =
      NotAfter-trans time (some o'.info) (consider time key now best o) r
        (rw e (consider_takes best o (subst IsAcceptable e ok))) scan.from_best

  lookup_from-Scan :
      (best : Option Info) (seen : List (Observed Info))
      → Scan best seen (lookup_from time key now best seen)
  unfolding lookup_from
  lookup_from-Scan best [] = record {
    source = start refl;
    from_best = NotAfter-refl time best;
    from_slots = λ o m ok. nowhere m;
  }
    where
      nowhere : {o : Observed Info} → Memᴰ o [] → NotAfter time (some o.info) best
      nowhere m = elim m [ ]
  lookup_from-Scan best (o ∷ os) =
      let after : Option Info = consider time key now best o in
      let rest = lookup_from-Scan after os in
      let r : Option Info = lookup_from time key now after os in
      record {
        source = From-cons best o os r rest.source;
        from_best = NotAfter-trans time best after r (consider_grows best o) rest.from_best;
        from_slots = slots-cons best o os r rest;
      }

-- What a lookup returns, whatever it saw of the slots: nothing, or the information of an acceptable
-- slot that it saw (read undisturbed, of exactly this transmit field, address and port, and no more
-- than 1 s old); and no acceptable slot that it saw has newer information, so that it returns nothing
-- only if there was none.
pub lookup_newest :
    {Info : Type 0} (time : Info → ℤ) (tx : List ℕ) (src_ip src_port : ℕ) (now : ℤ)
    (seen : List (Observed Info))
    → let key = build_key tx src_ip src_port in
      let r = lookup time tx src_ip src_port now seen in
      From time key now none seen r
      × ((o : Observed Info)
          → Memᴰ o seen
          → IsAcceptable time key now o
          → NotAfter time (some o.info) r)
unfolding lookup
lookup_newest time tx src_ip src_port now seen =
    let scan = lookup_from-Scan time (build_key tx src_ip src_port) now none seen in
    (scan.source, scan.from_slots)
