-- ===== src/Kcp/AckList.antt =====
-- receiving.go, `AckList`: the acknowledgements that are still to be sent, or sent again.
pub mod Clear
pub mod Flush
use dpi_warrior_native_xray.Base.{
  ℕ, ◌/◌, Bool, true, false, not, ◌||◌, List, [], ◌∷◌, ◌++◌, ltb, if◌then◌else◌, length, add32,
}
use dpi_warrior_native_xray.Kcp.Segment.{
  AckSegment, new_ack_segment, put_number, put_timestamp, is_full, is_empty,
}

-- One place of the slices `numbers`, `timestamps` and `nextFlush`, which are extended and cut
-- together.
pub record AckEntry : Type 0 where
  pub number : ℕ
  pub timestamp : ℕ
  pub next_flush : ℕ

pub record AckList : Type 0 where
  pub entries : List AckEntry
  pub flush_candidates : List ℕ
  pub dirty : Bool

-- `cap(l.flushCandidates)`, which no append exceeds.
abbrev pub candidates_cap : ℕ
candidates_cap = 128

unfoldable pub new_ack_list : AckList
new_ack_list = record { entries = []; flush_candidates = []; dirty = false }

unfoldable pub add : AckList → ℕ → ℕ → AckList
add l number timestamp = record l {
  entries = l.entries ++ (record { number = number; timestamp = timestamp; next_flush = 0 } ∷ []);
  dirty = true;
}

-- The loop of `Clear`, which moves the entries that stay to the front.
unfoldable pub keep_from : ℕ → List AckEntry → List AckEntry
keep_from una [] = []
keep_from una (e ∷ es) = let rest = keep_from una es in if ltb e.number una then rest else e ∷ rest

unfoldable pub clear : AckList → ℕ → AckList
unfolding keep_from
clear l una =
    let kept = keep_from una l.entries in
    if ltb (length kept) (length l.entries) then record l { entries = kept; dirty = true } else l

-- The variables of the loop of `Flush`; `written` is what the writer got, in order.
pub record FlushState : Type 0 where
  pub seg : AckSegment
  pub candidates : List ℕ
  pub dirty : Bool
  pub written : List AckSegment

-- `timeout := rto / 2`, at least 20.
unfoldable pub ack_timeout : ℕ → ℕ
ack_timeout rto = if ltb (rto / 2) 20 then 20 else rto / 2

unfoldable pub write_if_full : FlushState → FlushState
write_if_full st =
    if is_full st.seg
    then record st { seg = new_ack_segment; dirty = false; written = st.written ++ (st.seg ∷ []) }
    else st

unfoldable pub flush_entry : ℕ → ℕ → AckEntry → FlushState → AckEntry × FlushState
unfolding write_if_full put_number put_timestamp is_full ack_timeout
flush_entry current rto e st =
    if ltb current e.next_flush
    then (
      e,
      if ltb (length st.candidates) candidates_cap
          then record st { candidates = st.candidates ++ (e.number ∷ []) }
          else st,
    )
    else (
      record e { next_flush = add32 current (ack_timeout rto) },
      write_if_full (record st { seg = put_timestamp (put_number st.seg e.number) e.timestamp }),
    )

unfoldable pub flush_entries : ℕ → ℕ → List AckEntry → FlushState → List AckEntry × FlushState
flush_entries current rto [] st = ([], st)
flush_entries current rto (e ∷ es) st =
    let (e', st') = flush_entry current rto e st in
    let (es', st'') = flush_entries current rto es st' in (e' ∷ es', st'')

-- The loop that fills the last segment with numbers whose time has not come.
unfoldable pub fill : AckSegment → List ℕ → AckSegment
unfolding put_number is_full
fill seg [] = seg
fill seg (n ∷ ns) = if is_full seg then seg else fill (put_number seg n) ns

-- The entries and flags after the flush, and the segments that were handed to the writer.
unfoldable pub flush : AckList → ℕ → ℕ → AckList × List AckSegment
unfolding flush_entries flush_entry fill is_empty
flush l current rto =
    let start : FlushState = record {
      seg = new_ack_segment;
      candidates = [];
      dirty = l.dirty;
      written = [];
    } in
    let (es, st) = flush_entries current rto l.entries start in
    if st.dirty || not (is_empty st.seg)
    then (
      record { entries = es; flush_candidates = st.candidates; dirty = false },
      st.written ++ (fill st.seg st.candidates ∷ []),
    )
    else (record { entries = es; flush_candidates = st.candidates; dirty = st.dirty }, st.written)
