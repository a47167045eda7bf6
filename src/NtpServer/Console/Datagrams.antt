-- ===== src/NtpServer/Console/Datagrams.antt =====
-- The datagrams that `emit` and `flush` of ntp_server.cpp make of a sequence of lines.
use esphome_gps_pps_ntp_serv.Base.{
  ℕ, zero, suc, ◌+◌, ◌≤◌, ◌<◌, ◌≡◌, ◌==◌, ◌||◌, refl, sym, ap, ap₂, ltb→lt, false, ltb, leb, List,
  [], ◌∷◌, ◌++◌, map, length, take, arith, if◌then◌else◌, if_elim, length-append,
}
use mathlib.Core.Path.{◌∙◌}
use mathlib.Core.List.{append_assoc, append-nil, map-append}
use esphome_gps_pps_ntp_serv.NtpServer.Console.Batch.{
  Batch, batch_size, empty_batch, flush, emit, emit_all, printed,
}
use esphome_gps_pps_ntp_serv.NtpServer.Console.Lengths.{Fits}

module _ {A : Type 0} where
  abbrev pub flat : List (List A) → List A
  flat [] = []
  flat (xs ∷ xss) = xs ++ flat xss

  flat-append : (xss yss : List (List A)) → flat (xss ++ yss) ≡ flat xss ++ flat yss
  flat-append [] yss = refl
  flat-append (xs ∷ xss) yss =
      ap (λ zs. xs ++ zs) (flat-append xss yss) ∙ sym (append_assoc xs (flat xss) (flat yss))

abbrev pub AllFit : List (List ℕ) → Type 0
AllFit [] = Unit
AllFit (l ∷ ls) = Fits l × AllFit ls

-- Each datagram has bytes, and not too many.
abbrev pub AllSized : List (List ℕ) → Type 0
AllSized [] = Unit
AllSized (d ∷ ds) = ((0 < length d) × (length d ≤ batch_size)) × AllSized ds

AllSized-snoc :
    (ds : List (List ℕ)) (d : List ℕ)
    → AllSized ds
    → 0 < length d
    → length d ≤ batch_size
    → AllSized (ds ++ d ∷ [])
AllSized-snoc [] d h lo hi = ((lo, hi), tt)
AllSized-snoc (e ∷ ds) d h lo hi = (h.0, AllSized-snoc ds d h.1 lo hi)

-- A batch that has been given the lines `ls`: those of `groups` have gone out, one group in a
-- datagram, and those of `current` are held.
record Holds (b : Batch) (ls : List (List ℕ)) : Type 0 where
  groups : List (List (List ℕ))
  current : List (List ℕ)
  whole : flat groups ++ current ≡ ls
  sent : map flat groups ≡ b.datagrams
  held : flat current ≡ b.bytes
  sized : AllSized b.datagrams
  room : length b.bytes ≤ batch_size
  none_held : length b.bytes ≡ 0 → current ≡ []

empty-Holds : Holds empty_batch []
empty-Holds = record {
  groups = [];
  current = [];
  whole = refl;
  sent = refl;
  held = refl;
  sized = tt;
  room = omega arith;
  none_held = λ _. refl;
}

take-take_append :
    {A : Type 0} (n : ℕ) (l rest : List A) → length l ≤ n → take (length l) (take n l ++ rest) ≡ l
take-take_append n [] rest h = refl
take-take_append zero (x ∷ l) rest h = elim h [ ]
take-take_append (suc n) (x ∷ l) rest h = ap (◌∷◌ x) (take-take_append n l rest (omega (arith, h)))

length_zero : {A : Type 0} (l : List A) → length l ≡ 0 → l ≡ []
length_zero [] h = refl
length_zero (x ∷ l) h = absurd (omega (arith, h))

-- What `emit` copies of a printed line is the line.
printed-take : (l stale : List ℕ) → length l < 240 → take (length l) (printed l stale) ≡ l
printed-take l stale h = take-take_append 239 l (0 ∷ stale) (omega (arith, h))

emit_lem :
    (b : Batch) (l stale : List ℕ)
    → Fits l
    → let room = if ltb batch_size (length b.bytes + length l) then flush b else b in
      emit b (printed l stale) (length l) ≡ record room { bytes = room.bytes ++ l }
unfolding emit
emit_lem b l stale fits =
    let open_line : (length l == 0 || leb batch_size (length l)) ≡ false = ground arith in
    rw (open_line, printed-take l stale fits.1)

not_ltb : (a b : ℕ) → ltb a b ≡ false → b ≤ a
not_ltb a b h = ground arith

-- A line joins the current group.
join :
    (b : Batch) (ls : List (List ℕ)) (l : List ℕ)
    → Holds b ls
    → 0 < length l
    → length b.bytes + length l ≤ batch_size
    → Holds (record b { bytes = b.bytes ++ l }) (ls ++ l ∷ [])
join b ls l h some_bytes fits = record {
  groups = h.groups;
  current = h.current ++ l ∷ [];
  whole = sym (append_assoc (flat h.groups) h.current (l ∷ [])) ∙ ap (λ ms. ms ++ l ∷ []) h.whole;
  sent = h.sent;
  held =
      flat-append h.current (l ∷ [])
      ∙ ap (λ xs. flat h.current ++ xs) (append-nil l)
      ∙ ap (λ bs. bs ++ l) h.held;
  sized = h.sized;
  room = omega (arith, length-append b.bytes l, fits);
  none_held = λ e. absurd (omega (arith, e, length-append b.bytes l, some_bytes));
}

flush-Holds :
    (b : Batch) (ls : List (List ℕ)) → Holds b ls → Holds (flush b) ls × ((flush b).bytes ≡ [])
unfolding flush
flush-Holds b ls h =
    if_elim (λ (b' : Batch). Holds b' ls × (b'.bytes ≡ [])) (ltb 0 (length b.bytes))
      (λ t. (
        record {
          groups = h.groups ++ h.current ∷ [];
          current = [];
          whole =
              append-nil (flat (h.groups ++ h.current ∷ []))
              ∙ flat-append h.groups (h.current ∷ [])
              ∙ ap (λ ms. flat h.groups ++ ms) (append-nil h.current)
              ∙ h.whole;
          sent =
              map-append flat h.groups (h.current ∷ [])
              ∙ ap₂ (λ ds bs. ds ++ bs ∷ []) h.sent h.held;
          held = refl;
          sized = AllSized-snoc b.datagrams b.bytes h.sized (ltb→lt 0 (length b.bytes) t) h.room;
          room = omega arith;
          none_held = λ _. refl;
        },
        refl,
      ))
      λ f. (h, length_zero b.bytes (omega (arith, not_ltb 0 (length b.bytes) f)))

emit-Holds :
    (b : Batch) (ls : List (List ℕ)) (l stale : List ℕ)
    → Holds b ls
    → Fits l
    → Holds (emit b (printed l stale) (length l)) (ls ++ l ∷ [])
emit-Holds b ls l stale h fits = rw (emit_lem b l stale fits) (
    if_elim (λ (r : Batch). Holds (record r { bytes = r.bytes ++ l }) (ls ++ l ∷ []))
      (ltb batch_size (length b.bytes + length l))
      (λ t.
        let (flushed, empty) = flush-Holds b ls h in
        join (flush b) ls l flushed (fits.0) (omega (arith, ap length empty, fits.1)))
      λ f. join b ls l h (fits.0) (not_ltb batch_size (length b.bytes + length l) f))

emit_all-Holds :
    (stale : List ℕ) (b : Batch) (ls texts : List (List ℕ))
    → Holds b ls
    → AllFit texts
    → Holds (emit_all stale b texts) (ls ++ texts)
unfolding emit_all
emit_all-Holds stale b ls [] h fit = rw (append-nil ls) h
emit_all-Holds stale b ls (l ∷ texts) h fit = rw⁻¹ (append_assoc ls (l ∷ []) texts) (
    emit_all-Holds stale (emit b (printed l stale) (length l)) (ls ++ l ∷ []) texts
      (emit-Holds b ls l stale h fit.0) (fit.1))

-- Lines that fit the buffer are emitted, and the last batch is flushed. Then the datagrams hold the
-- lines, whole and in order: one group of successive lines each, of 1 to 1400 bytes.
pub emit_all-datagrams :
    (stale : List ℕ) (texts : List (List ℕ))
    → AllFit texts
    → let sent = (flush (emit_all stale empty_batch texts)).datagrams in
      (groups : List (List (List ℕ))) × (flat groups ≡ texts)
      × (sent ≡ map flat groups)
      × AllSized sent
emit_all-datagrams stale texts fit =
    let (h, empty) =
      flush-Holds (emit_all stale empty_batch texts) texts
        (emit_all-Holds stale empty_batch [] texts empty-Holds fit) in
    (
      h.groups,
      sym (append-nil (flat h.groups))
          ∙ ap (λ ms. flat h.groups ++ ms) (sym (h.none_held (ap length empty)))
          ∙ h.whole,
      sym h.sent,
      h.sized,
    )
