-- ===== src/Mux/Frame/RoundTrip.antt =====
-- Reading the metadata that was written.
use mathlib.Core.Path.{subst}
use dpi_warrior_native_xray.Base.{
  ℕ, ◌%◌, ◌^◌, ◌≡◌, refl, sym, ap, ◌∙◌, ◌≢◌, ◌⊎◌, inl, inr, false, Option, none, some, List, [],
  ◌∷◌, ◌++◌, arith, ◌==◌, if◌then◌else◌, Bool-cases, length, IsU16, be16,
}
use dpi_warrior_native_xray.Base.Outcome.{Outcome, returns, ◌>>=◌}
use dpi_warrior_native_xray.Net.{Address, Text, network_tcp, network_udp, Destination}
use dpi_warrior_native_xray.AddressParser.RoundTrip.{IsCarried}
use dpi_warrior_native_xray.Mux.Frame.{
  FrameMetadata, new_frame, status_new, network_bytes, write_target, write_udp, write_to, unmarshal,
}
use dpi_warrior_native_xray.Mux.Frame.Wire.{wire, write-wire}
use dpi_warrior_native_xray.Mux.Frame.Reading.{
  Reads, received, optional_id, unmarshal-frame, read_new, write_udp-wire, read_later_none,
  read_later_some,
}

-- A destination that can be written and read.
abbrev pub Carries : Text → Destination → Type 0
Carries text d = (a : Address) × (d.address ≡ some a) × IsCarried text a × IsU16 d.port

-- What a sender fills in: a new session has a target of TCP or UDP.
abbrev pub IsSendable : Text → FrameMetadata → Option Destination → Type 0
IsSendable text f udp =
    IsU16 f.session_id
    × (length f.global_id ≡ 8)
    × (f.session_status ≡ status_new
        → Carries text f.target
          × ((f.target.network ≡ network_tcp) ⊎ (f.target.network ≡ network_udp)))
    × ((d : Destination) → f.session_status ≢ status_new → udp ≡ some d → Carries text d)

write_target-wire :
    (text : Text) (t : Destination) (a : Address) (gid : List ℕ) (udp : Option Destination)
    → t.address ≡ some a
    → IsCarried text a
    → write_target t gid udp
      ≡ returns (network_bytes t.network ++ (wire a t.port ++ optional_id gid udp))
unfolding write_target
write_target-wire text t a gid none e h = rw (e, write_target, write-wire text a t.port h) refl
write_target-wire text t a gid (some d) e h = rw (e, write_target, write-wire text a t.port h) refl

read_new_frame :
    (text : Text) (f : FrameMetadata) (a : Address) (udp : Option Destination)
    → f.session_status ≡ status_new
    → f.target.address ≡ some a
    → IsCarried text a
    → IsU16 f.target.port
    → (f.target.network ≡ network_tcp) ⊎ (f.target.network ≡ network_udp)
    → IsU16 f.session_id
    → length f.global_id ≡ 8
    → Reads text f udp
        (network_bytes f.target.network ++ (wire a f.target.port ++ optional_id f.global_id udp))
read_new_frame text f a udp s e h u net id gid =
    let t = f.target in
    let x = network_bytes t.network ++ (wire a t.port ++ optional_id f.global_id udp) in
    subst
      (λ (o : Option Address). Reads text (record f { target = record t { address = o } }) udp x)
      (sym e)
      (subst
        (λ (k : ℕ).
          Reads text (record f { session_status = k; target = record t { address = some a } }) udp
            x)
        (sym s)
        (read_new text a t.port t.network f.session_id f.option f.global_id udp h u net id gid))

-- What stands behind the four bytes of every frame.
abbrev frame_tail : FrameMetadata → Option Destination → Outcome (List ℕ)
frame_tail f udp =
    if f.session_status == status_new then write_target f.target f.global_id udp else write_udp udp

frame_tail-later :
    (text : Text) (f : FrameMetadata) (udp : Option Destination)
    → IsU16 f.session_id
    → (f.session_status == status_new) ≡ false
    → ((d : Destination) → udp ≡ some d → Carries text d)
    → (x : List ℕ) × (frame_tail f udp ≡ returns x) × Reads text f udp x
frame_tail-later text f none id is_later carried =
    ([], unfold write_udp in ground (arith, is_later), read_later_none text f id is_later)
frame_tail-later text f (some d) id is_later carried =
    let (a, e, h, u) = carried d refl in
    (
      2 ∷ wire a d.port,
      ground (arith, is_later, write_udp-wire text d a e h),
      read_later_some text f id is_later d a e h u,
    )

frame_tail-Reads :
    (text : Text) (f : FrameMetadata) (udp : Option Destination)
    → IsSendable text f udp
    → (x : List ℕ) × (frame_tail f udp ≡ returns x) × Reads text f udp x
frame_tail-Reads text f udp (id, gid, new, later) =
    elim (Bool-cases (f.session_status == status_new)) [
      | inl is_new ↦
          let s : f.session_status ≡ status_new = ground (arith, is_new) in
          let ((a, e, h, u), net) = new s in
          (
            network_bytes f.target.network ++ (wire a f.target.port ++ optional_id f.global_id udp),
            ground (arith, is_new, write_target-wire text f.target a f.global_id udp e h),
            read_new_frame text f a udp s e h u net id gid,
          )
      | inr is_later ↦
          let other : f.session_status ≢ status_new = λ s. ground (arith, is_later, s) in
          frame_tail-later text f udp id is_later (λ d e. later d other e)
    ]

-- Of a frame that is written, the peer reads the session, the option and the status, the target of a
-- new session or, if the session goes on, of a user's packet, and the global ID where a user's new UDP
-- session has data; what follows the frame is left. Assumed is that the sender filled the frame in, and
-- that its addresses can be carried.
pub unmarshal-write_to :
    (text : Text) (f : FrameMetadata) (udp : Option Destination) (tail : List ℕ)
    → IsSendable text f udp
    → (write_to f udp >>= λ w. unmarshal text new_frame (w ++ tail))
      ≡ returns (received f udp, tail)
unfolding write_to
unmarshal-write_to text f udp tail h =
    let (x, e, r) = frame_tail-Reads text f udp h in
    ap
      (λ o.
        (o >>= λ rest. returns (
          be16 (length (be16 f.session_id ++ (f.session_status ∷ f.option ∷ rest)) % 2 ^ 16)
          ++ (be16 f.session_id ++ (f.session_status ∷ f.option ∷ rest))))
        >>= λ w. unmarshal text new_frame (w ++ tail))
      e
    ∙ unmarshal-frame text f udp x tail r
