-- ===== src/Mux/Frame/Reading.antt =====
-- Reading what stands behind the four bytes of every frame.
use dpi_warrior_native_xray.Base.{
  ℕ, ◌/◌, ◌%◌, ◌^◌, ◌≤◌, ◌<◌, ◌≡◌, refl, ap, ◌∙◌, ◌⊎◌, false, ◌&&◌, Option, none, some, List, [],
  ◌∷◌, ◌++◌, append-nil, arith, ltb, ◌==◌, if◌then◌else◌, le→ltb, length, length-append, take-all,
  IsU16, be16, of_be16, of_be16-be16, zeros,
}
use dpi_warrior_native_xray.Base.Outcome.{returns, ◌>>=◌}
use dpi_warrior_native_xray.Net.{
  Address, Text, Network, network_unknown, network_tcp, network_udp, network_unix, Destination,
}
use dpi_warrior_native_xray.AddressParser.{present, write_address_port}
use dpi_warrior_native_xray.AddressParser.RoundTrip.{IsCarried, read_full_from-append}
use dpi_warrior_native_xray.Mux.Frame.{
  FrameMetadata, new_frame, status_new, status_keep, addr_parser, is_udp, network_bytes, write_udp,
  has_data, has_target, read_network, read_global_id, read_target, unmarshal_from_buffer,
  read_uint16, unmarshal,
}
use dpi_warrior_native_xray.Mux.Frame.Wire.{wire, read-wire, write-wire, length-wire}

-- What the peer has of a frame: the target, if one was written, and the global ID, if it was written
-- and the peer looks for it.
abbrev pub received_global_id : FrameMetadata → Option Destination → List ℕ
received_global_id f none = zeros 8
received_global_id f (some d) =
    if f.session_status == status_new && (has_data f.option && is_udp f.target.network)
    then f.global_id
    else zeros 8

abbrev pub no_target : Destination
no_target = record { address = none; port = 0; network = network_unknown }

abbrev pub received_target : FrameMetadata → Option Destination → Destination
received_target f udp =
    let later : Destination = elim udp [
      | none ↦ no_target
      | some d ↦ record d { network = network_udp }
    ] in
    if f.session_status == status_new
    then f.target
    else if f.session_status == status_keep
    then later
    else no_target

abbrev pub received : FrameMetadata → Option Destination → FrameMetadata
received f udp = record f { target = received_target f udp; global_id = received_global_id f udp }

-- The bytes behind the four of every frame, and what is read of them.
abbrev pub Reads : Text → FrameMetadata → Option Destination → List ℕ → Type 0
Reads text f udp rest =
    (length rest ≤ 270)
    × (unmarshal_from_buffer text new_frame
          (be16 f.session_id ++ (f.session_status ∷ f.option ∷ rest))
        ≡ returns (received f udp))

-- Framing and its reading, whatever stands in the frame.
pub unmarshal-frame :
    (text : Text) (f : FrameMetadata) (udp : Option Destination) (rest tail : List ℕ)
    → Reads text f udp rest
    → (let body = be16 f.session_id ++ (f.session_status ∷ f.option ∷ rest) in
        unmarshal text new_frame ((be16 (length body % 2 ^ 16) ++ body) ++ tail)
        ≡ returns (received f udp, tail))
unfolding unmarshal read_uint16
unmarshal-frame text f udp rest tail (short, back) =
    let body = be16 f.session_id ++ (f.session_status ∷ f.option ∷ rest) in
    let n = length body in
    let small : n < 512 = omega arith in
    let e : of_be16 (n % 2 ^ 16 / 2 ^ 8 % 256) (n % 2 ^ 16 % 256) ≡ n = omega arith in
    let fits : ltb 512 n ≡ false = le→ltb _ _ (omega arith) in
    rw (e, fits, read_full_from-append [] body tail n refl (omega arith), back) refl

abbrev pub frame_of : Address → ℕ → Network → ℕ → ℕ → ℕ → List ℕ → FrameMetadata
frame_of a port net id status opt gid = record {
  target = record { address = some a; port = port; network = net };
  session_id = id;
  option = opt;
  session_status = status;
  global_id = gid;
}

abbrev pub optional_id : List ℕ → Option Destination → List ℕ
optional_id gid none = []
optional_id gid (some d) = gid

-- What stands behind the network byte of a new session.
read_target-wire :
    (text : Text) (f : FrameMetadata) (network : ℕ) (a : Address) (port : ℕ) (rest : List ℕ)
    (d : Destination)
    → IsCarried text a
    → IsU16 port
    → read_network network a port ≡ returns d
    → read_target text f (network ∷ (wire a port ++ rest))
      ≡ returns (read_global_id (record f { target = d }) rest)
unfolding read_target
read_target-wire text f network a port rest d h u e =
    let long : ltb (length (wire a port ++ rest)) 3 ≡ false = le→ltb _ _ (omega arith) in
    rw (long, read-wire text a port rest h u, e) refl

-- The network byte of TCP or UDP, and the network again.
read_network-bytes :
    (a : Address) (port : ℕ) (net : Network)
    → (net ≡ network_tcp) ⊎ (net ≡ network_udp)
    → (n : ℕ) × (network_bytes net ≡ n ∷ [])
      × (read_network n a port ≡ returns (record { address = some a; port = port; network = net }))
unfolding read_network
read_network-bytes a port network_tcp h = (1, refl, refl)
read_network-bytes a port network_udp h = (2, refl, refl)
read_network-bytes a port network_unknown h = absurd (ground (arith, h))
read_network-bytes a port network_unix h = absurd (ground (arith, h))

length-optional_id :
    (gid : List ℕ) (udp : Option Destination) → length gid ≡ 8 → length (optional_id gid udp) ≤ 8
length-optional_id gid none e = omega arith
length-optional_id gid (some d) e = omega (arith, e)

read_global_id-optional :
    (t : Destination) (id opt : ℕ) (gid : List ℕ) (udp : Option Destination)
    → length gid ≡ 8
    → (let f : FrameMetadata = record {
      target = t;
      session_id = id;
      option = opt;
      session_status = status_new;
      global_id = zeros 8;
    } in
        read_global_id f (optional_id gid udp)
        ≡ record f { global_id = received_global_id (record f { global_id = gid }) udp })
unfolding read_global_id
read_global_id-optional t id opt gid none e = ground arith
read_global_id-optional t id opt gid (some d) e = ground (arith, take-all 8 gid (omega (arith, e)))

pub read_new :
    (text : Text) (a : Address) (port : ℕ) (net : Network) (id opt : ℕ) (gid : List ℕ)
    (udp : Option Destination)
    → IsCarried text a
    → IsU16 port
    → (net ≡ network_tcp) ⊎ (net ≡ network_udp)
    → IsU16 id
    → length gid ≡ 8
    → Reads text
        (frame_of a port net id status_new opt gid)
        udp
        (network_bytes net ++ (wire a port ++ optional_id gid udp))
unfolding unmarshal_from_buffer has_target
read_new text a port net id opt gid udp h u tcp_or_udp idok gidok =
    let (n, e, back) = read_network-bytes a port net tcp_or_udp in
    let f = frame_of a port net id status_new opt (zeros 8) in
    let short : length (optional_id gid udp) ≤ 8 = length-optional_id gid udp gidok in
    rw (e) (
      omega (
        arith,
        length-append (wire a port) (optional_id gid udp),
        length-wire text a port h,
        short,
      ),
      rw
          (
            of_be16-be16 id idok,
            read_target-wire text (record f { target = no_target }) n a port (optional_id gid udp)
                (f.target) h u back,
          )
          (ap returns (read_global_id-optional (f.target) id opt gid udp gidok)),
    )

read_global_id-later :
    (f : FrameMetadata) (rest : List ℕ)
    → (f.session_status == status_new) ≡ false
    → read_global_id f rest ≡ f
unfolding read_global_id
read_global_id-later f rest later = ground (arith, later)

pub write_udp-wire :
    (text : Text) (d : Destination) (a : Address)
    → d.address ≡ some a
    → IsCarried text a
    → write_udp (some d) ≡ returns (2 ∷ wire a d.port)
unfolding write_udp
write_udp-wire text d a e h =
    ap (λ o. present o >>= λ addr. returns (2 ∷ (write_address_port addr_parser addr d.port).0)) e
    ∙ ap (λ w. returns (2 ∷ w.0)) (write-wire text a d.port h)

-- A frame that is not of a new session, of a packet that is no user's, and of one that is: its target
-- is read only if the session goes on.
module _ (text : Text) (f : FrameMetadata) (u : IsU16 f.session_id)
    (later : (f.session_status == status_new) ≡ false) where
  pub read_later_none : Reads text f none []
  unfolding unmarshal_from_buffer has_target
  read_later_none =
      let g : FrameMetadata = record f { target = no_target; global_id = zeros 8 } in
      (
        omega arith,
        ground (arith, later, of_be16-be16 f.session_id u, read_global_id-later g [] later),
      )

  pub read_later_some :
      (d : Destination) (a : Address)
      → d.address ≡ some a
      → IsCarried text a
      → IsU16 d.port
      → Reads text f (some d) (2 ∷ wire a d.port)
  unfolding unmarshal_from_buffer has_target read_network
  read_later_some d a e h ud =
      let g : FrameMetadata = record f { target = no_target; global_id = zeros 8 } in
      let t : Destination = record { address = some a; port = d.port; network = network_udp } in
      let g' : FrameMetadata = record g { target = t } in
      let read = read_target-wire text g 2 a d.port [] t h ud refl in
      (
        omega (arith, length-wire text a d.port h),
        ground (
          arith,
          e,
          later,
          of_be16-be16 f.session_id u,
          append-nil (wire a d.port),
          read,
          read_global_id-later g (2 ∷ wire a d.port) later,
          read_global_id-later g' [] later,
        ),
      )
