-- ===== src/Kcp/AckList/Flush.antt =====
-- What a flush of the acknowledgements sends, and what it leaves.
use dpi_warrior_native_xray.Base.{
  ℕ, suc, ◌-◌, ◌≤◌, ◌<◌, min, ◌≡◌, refl, sym, ap, ◌∙◌, inl, inr, Bool, true, false, not, ◌||◌, List,
  [], ◌∷◌, ◌++◌, map, append-nil, append_assoc, arith, ltb, leb, ◌==◌, if◌then◌else◌, Bool-cases,
  length, take, length-append, length-take, take-all, take-nil, take-append, take-take, eq_nil, ap₂,
  All, All-append, add32,
}
use dpi_warrior_native_xray.Kcp.Segment.{
  AckSegment, new_ack_segment, put_number, put_timestamp, is_full, is_empty, ack_number_limit,
}
use dpi_warrior_native_xray.Kcp.AckList.{
  AckEntry, AckList, FlushState, candidates_cap, ack_timeout, write_if_full, flush_entry,
  flush_entries, fill, flush,
}

-- An entry whose time has come.
abbrev pub is_due : ℕ → AckEntry → Bool
is_due current e = leb e.next_flush current

abbrev pub due : ℕ → List AckEntry → List ℕ
due current [] = []
due current (e ∷ es) = if is_due current e then e.number ∷ due current es else due current es

abbrev pub pending : ℕ → List AckEntry → List ℕ
pending current [] = []
pending current (e ∷ es) =
    if is_due current e then pending current es else e.number ∷ pending current es

-- The numbers that a list of acknowledgements carries.
abbrev pub sent : List AckSegment → List ℕ
sent [] = []
sent (s ∷ ss) = s.number_list ++ sent ss

-- The entry with its next time, if its time has come.
abbrev pub rescheduled : ℕ → ℕ → AckEntry → AckEntry
rescheduled current rto e =
    if is_due current e then record e { next_flush = add32 current (ack_timeout rto) } else e

abbrev HasRoom : FlushState → Type 0
HasRoom st =
    (length st.seg.number_list < ack_number_limit)
    × All (λ s. length s.number_list ≤ ack_number_limit) st.written

abbrev all_sent : FlushState → List ℕ
all_sent st = sent st.written ++ st.seg.number_list

sent-append : (xs ys : List AckSegment) → sent (xs ++ ys) ≡ sent xs ++ sent ys
sent-append [] ys = refl
sent-append (s ∷ xs) ys =
    rw (sent-append xs ys) (sym (append_assoc s.number_list (sent xs) (sent ys)))

number_list-put_timestamp :
    (s : AckSegment) (t : ℕ) → (put_timestamp s t).number_list ≡ s.number_list
unfolding put_timestamp
number_list-put_timestamp s t = ground arith

write_if_full_lem :
    (st : FlushState)
    → length st.seg.number_list ≤ ack_number_limit
    → All (λ s. length s.number_list ≤ ack_number_limit) st.written
    → HasRoom (write_if_full st)
      × (all_sent (write_if_full st) ≡ all_sent st)
      × ((write_if_full st).candidates ≡ st.candidates)
unfolding write_if_full is_full
write_if_full_lem st h w = elim (Bool-cases (length st.seg.number_list == ack_number_limit)) [
  | inl e ↦ rw e (
    (omega arith, All-append _ st.written (st.seg ∷ []) w (h, tt)),
    append-nil _
        ∙ sent-append st.written (st.seg ∷ [])
        ∙ ap (◌++◌ (sent st.written)) (append-nil st.seg.number_list),
    refl,
  )
  | inr e ↦ rw e ((ground arith, w), refl, refl)
]

abbrev EntryStep : ℕ → ℕ → AckEntry → FlushState → AckEntry × FlushState → Type 0
EntryStep current rto e st (e', st') =
    HasRoom st'
    × (all_sent st' ≡ all_sent st ++ due current (e ∷ []))
    × (st'.candidates
        ≡ st.candidates ++ take (candidates_cap - length st.candidates) (pending current (e ∷ [])))
    × (e' ≡ rescheduled current rto e)

-- The segment with one more number.
extended : AckSegment → AckEntry → AckSegment
extended s e = put_timestamp (put_number s e.number) e.timestamp

number_list-extended :
    (s : AckSegment) (e : AckEntry) → (extended s e).number_list ≡ s.number_list ++ (e.number ∷ [])
unfolding extended put_number
number_list-extended s e = number_list-put_timestamp (put_number s e.number) e.timestamp

flush_due :
    (current rto : ℕ) (e : AckEntry) (st : FlushState)
    → is_due current e ≡ true
    → HasRoom st
    → EntryStep current rto e st (
      record e { next_flush = add32 current (ack_timeout rto) },
      write_if_full (record st { seg = extended st.seg e }),
    )
flush_due current rto e st d (room, w) =
    let l = number_list-extended st.seg e in
    let fits : length (extended st.seg e).number_list ≤ ack_number_limit =
      rw l (omega (arith, length-append st.seg.number_list (e.number ∷ []))) in
    let (r, a, c) = write_if_full_lem (record st { seg = extended st.seg e }) fits w in
    (
      r,
      a ∙ rw (d, l) (sym (append_assoc (sent st.written) st.seg.number_list (e.number ∷ []))),
      c ∙ rw d (sym (ap (◌++◌ st.candidates) (take-nil _) ∙ append-nil _)),
      rw d,
    )

flush_pending :
    (current rto : ℕ) (e : AckEntry) (st : FlushState)
    → is_due current e ≡ false
    → HasRoom st
    → EntryStep current rto e st (
      e,
      if ltb (length st.candidates) candidates_cap
          then record st { candidates = st.candidates ++ (e.number ∷ []) }
          else st,
    )
flush_pending current rto e st d (room, w) =
    elim (Bool-cases (ltb (length st.candidates) candidates_cap)) [
      | inl c ↦
          rw (c, d)
            (
              (room, w),
              sym (append-nil _),
              sym (ap (◌++◌ st.candidates) (take-all _ (e.number ∷ []) (ground arith))),
              refl,
            )
      | inr c ↦
          rw (c, d)
            (
              (room, w),
              sym (append-nil _),
              (let z : candidates_cap - length st.candidates ≡ 0 = ground arith in
                  rw z (sym (append-nil st.candidates))),
              refl,
            )
    ]

flush_entry_lem :
    (current rto : ℕ) (e : AckEntry) (st : FlushState)
    → HasRoom st
    → EntryStep current rto e st (flush_entry current rto e st)
unfolding flush_entry extended
flush_entry_lem current rto e st h = elim (Bool-cases (ltb current e.next_flush)) [
  | inl p ↦ rw p (flush_pending current rto e st (ground arith) h)
  | inr d ↦ rw d (flush_due current rto e st (ground arith) h)
]

due-cons :
    (current : ℕ) (e : AckEntry) (es : List AckEntry)
    → due current (e ∷ es) ≡ due current (e ∷ []) ++ due current es
due-cons current e es = elim (Bool-cases (is_due current e)) [ inl d ↦ rw d | inr d ↦ rw d ]

pending-cons :
    (current : ℕ) (e : AckEntry) (es : List AckEntry)
    → pending current (e ∷ es) ≡ pending current (e ∷ []) ++ pending current es
pending-cons current e es = elim (Bool-cases (is_due current e)) [ inl d ↦ rw d | inr d ↦ rw d ]

-- Two rounds of filling a list up to a bound are one.
fill_twice :
    (c p q : List ℕ)
    → (c ++ take (candidates_cap - length c) p)
        ++ take (candidates_cap - length (c ++ take (candidates_cap - length c) p)) q
      ≡ c ++ take (candidates_cap - length c) (p ++ q)
fill_twice c p q =
    let n = candidates_cap - length c in
    let room : candidates_cap - length (c ++ take n p) ≡ n - length p =
      omega (arith, length-append c (take n p), length-take n p) in
    rw room
      (append_assoc c (take n p) (take (n - length p) q) ∙ ap (◌++◌ c) (sym (take-append n p q)))

abbrev LoopStep : ℕ → ℕ → List AckEntry → FlushState → List AckEntry × FlushState → Type 0
LoopStep current rto es st (es', st') =
    HasRoom st'
    × (all_sent st' ≡ all_sent st ++ due current es)
    × (st'.candidates
        ≡ st.candidates ++ take (candidates_cap - length st.candidates) (pending current es))
    × (es' ≡ map (rescheduled current rto) es)

flush_entries_lem :
    (current rto : ℕ) (es : List AckEntry) (st : FlushState)
    → HasRoom st
    → LoopStep current rto es st (flush_entries current rto es st)
unfolding flush_entries
flush_entries_lem current rto [] st h =
    (h, sym (append-nil _), sym (ap (◌++◌ st.candidates) (take-nil _) ∙ append-nil _), refl)
flush_entries_lem current rto (e ∷ es) st h =
    let (h1, a1, c1, e1) = flush_entry_lem current rto e st h in
    let (h2, a2, c2, e2) = flush_entries_lem current rto es (flush_entry current rto e st).1 h1 in
    (
      h2,
      a2
          ∙ rw (a1, due-cons current e es)
              (append_assoc (all_sent st) (due current (e ∷ [])) (due current es)),
      c2
          ∙ rw (c1, pending-cons current e es)
              (fill_twice st.candidates (pending current (e ∷ [])) (pending current es)),
      ap₂ ◌∷◌ e1 e2,
    )

fill_lem :
    (s : AckSegment) (ns : List ℕ)
    → length s.number_list ≤ ack_number_limit
    → ((fill s ns).number_list ≡ s.number_list ++ take (ack_number_limit - length s.number_list) ns)
      × (length (fill s ns).number_list ≤ ack_number_limit)
unfolding fill
fill_lem s [] h = (sym (ap (◌++◌ s.number_list) (take-nil _) ∙ append-nil _), h)
fill_lem s (n ∷ ns) h = elim (Bool-cases (length s.number_list == ack_number_limit)) [
  | inl full ↦
      let z : ack_number_limit - length s.number_list ≡ 0 = ground arith in
      rw full (rw z (sym (append-nil _)), h)
  | inr more ↦
      let l = length-append s.number_list (n ∷ []) in
      let (a, b) = fill_lem (put_number s n) ns (unfold put_number in ground (arith, l)) in
      let room : ack_number_limit - length s.number_list
          ≡ suc (ack_number_limit - length (s.number_list ++ (n ∷ []))) =
        ground (arith, l) in
      rw more (a ∙ rw room (append_assoc s.number_list (n ∷ []) _), b)
]

abbrev pub Acknowledges : ℕ → ℕ → AckList → AckList × List AckSegment → Type 0
Acknowledges current rto l (l', written) =
    ((k : ℕ) × (sent written ≡ due current l.entries ++ take k (pending current l.entries)))
    × All (λ s. length s.number_list ≤ ack_number_limit) written
    × (l'.entries ≡ map (rescheduled current rto) l.entries)

-- A flush sends every number whose time has come, in order and once, then at most some of the first
-- numbers that wait; no segment it writes holds more than 128 numbers; and it gives the entries that
-- were due a new time, and changes no other.
pub flush-Acknowledges :
    (l : AckList) (current rto : ℕ) → Acknowledges current rto l (flush l current rto)
unfolding flush
flush-Acknowledges l current rto =
    let start : FlushState = record {
      seg = new_ack_segment;
      candidates = [];
      dirty = l.dirty;
      written = [];
    } in
    let end_state = (flush_entries current rto l.entries start).1 in
    let ((room, w), a, c, e) = flush_entries_lem current rto l.entries start (omega arith, tt) in
    elim (Bool-cases (end_state.dirty || not (is_empty end_state.seg))) [
      | inl more ↦
          let (f, b) = fill_lem end_state.seg end_state.candidates (omega arith) in
          let k = ack_number_limit - length end_state.seg.number_list in
          rw more (
            (
              min k candidates_cap,
              sent-append end_state.written (fill end_state.seg end_state.candidates ∷ [])
                  ∙ ap (◌++◌ (sent end_state.written)) (append-nil _ ∙ f)
                  ∙ sym (append_assoc (sent end_state.written) end_state.seg.number_list _)
                  ∙ ap₂ ◌++◌ a (rw c (take-take k candidates_cap (pending current l.entries))),
            ),
            All-append _ end_state.written (fill end_state.seg end_state.candidates ∷ []) w (b, tt),
            e,
          )
      | inr nothing ↦
          let empty : length end_state.seg.number_list ≡ 0 = unfold is_empty in ground arith in
          rw nothing (
            (
              0,
              sym (append-nil _)
                  ∙ ap (◌++◌ (sent end_state.written)) (sym (eq_nil _ empty))
                  ∙ a
                  ∙ sym (append-nil _),
            ),
            w,
            e,
          )
    ]
