-- ===== src/Mux/Frame.antt =====
-- frame.go: the metadata in front of each frame.
-- The buffer that is written to is fresh, as the callers have it, and so has room; `udp` is its field
-- UDP, the destination of the user's packet. What is written is a list of bytes.
pub mod Wire
pub mod Reading
pub mod RoundTrip
mod Tests
use dpi_warrior_native_xray.Base.{
  ℕ, ◌%◌, ◌^◌, Bool, true, false, not, ◌&&◌, ◌||◌, Option, none, some, List, [], ◌∷◌, ◌++◌, ltb,
  leb, ◌==◌, if◌then◌else◌, length, take, be16, of_be16, bit_and, zeros,
}
use dpi_warrior_native_xray.Base.Outcome.{Outcome, returns, fails, ◌>>=◌}
use dpi_warrior_native_xray.Net.{
  family_ipv4, family_ipv6, family_domain, family_code, Address, Text, Network, network_unknown,
  network_tcp, network_udp, Destination, tcp_destination, udp_destination,
}
use dpi_warrior_native_xray.AddressParser.{
  AddressOption, port_then_address, address_family_byte, AddressParser, read_full_from, present,
  read_address_port, write_address_port,
}

abbrev pub status_new : ℕ
status_new = 1

abbrev pub status_keep : ℕ
status_keep = 2

abbrev pub option_data : ℕ
option_data = 1

abbrev pub target_network_tcp : ℕ
target_network_tcp = 1

abbrev pub target_network_udp : ℕ
target_network_udp = 2

abbrev pub addr_options : List AddressOption
addr_options =
    address_family_byte 1 family_ipv4
    ∷ address_family_byte 2 family_domain
    ∷ address_family_byte 3 family_ipv6
    ∷ port_then_address
    ∷ []

-- `addrParser`, which `NewAddressParser` makes of these options.
abbrev pub addr_parser : AddressParser
addr_parser = record {
  addr_type_map = λ c.
      if c == 3
      then some family_ipv6
      else if c == 2
      then some family_domain
      else if c == 1
      then some family_ipv4
      else none;
  addr_byte_map = λ f.
      if family_code f == 1
      then some 3
      else if family_code f == 2
      then some 2
      else if family_code f == 0
      then some 1
      else none;
  port_first = true;
  type_parser = λ b. b;
}

pub record FrameMetadata : Type 0 where
  pub target : Destination
  pub session_id : ℕ
  pub option : ℕ
  pub session_status : ℕ
  pub global_id : List ℕ

-- The zero value.
abbrev pub new_frame : FrameMetadata
new_frame = record {
  target = record { address = none; port = 0; network = network_unknown };
  session_id = 0;
  option = 0;
  session_status = 0;
  global_id = zeros 8;
}

abbrev pub is_udp : Network → Bool
is_udp network_udp = true
is_udp _ = false

abbrev pub network_bytes : Network → List ℕ
network_bytes network_tcp = target_network_tcp ∷ []
network_bytes network_udp = target_network_udp ∷ []
network_bytes _ = []

-- The target of a new session, and behind it the global ID of a user's packet.
unfoldable pub write_target : Destination → List ℕ → Option Destination → Outcome (List ℕ)
write_target target global_id udp = do
  addr ← present target.address
  let (bytes, done) = write_address_port addr_parser addr target.port
  let id : List ℕ = elim udp [ none ↦ [] | some d ↦ global_id ]
  if done then returns (network_bytes target.network ++ (bytes ++ id)) else fails

-- The target of a later packet. An error is not looked at.
unfoldable pub write_udp : Option Destination → Outcome (List ℕ)
write_udp none = returns []
write_udp (some d) = do
  addr ← present d.address
  returns (target_network_udp ∷ (write_address_port addr_parser addr d.port).0)

-- `WriteTo`.
unfoldable pub write_to : FrameMetadata → Option Destination → Outcome (List ℕ)
write_to f udp = do
  rest ←
      if f.session_status == status_new
      then write_target f.target f.global_id udp
      else write_udp udp
  let body = be16 f.session_id ++ (f.session_status ∷ f.option ∷ rest)
  returns (be16 (length body % 2 ^ 16) ++ body)

-- `f.Option.Has(OptionData)`.
abbrev pub has_data : ℕ → Bool
has_data option = not (bit_and option option_data == 0)

-- Whether a target stands behind the four bytes of every frame; `rest` is what does stand there.
unfoldable pub has_target : ℕ → List ℕ → Bool
has_target status [] = status == status_new
has_target status (network ∷ rest) =
    status == status_new || (status == status_keep && network == target_network_udp)

unfoldable pub read_network : ℕ → Address → ℕ → Outcome Destination
read_network network addr port =
    if network == target_network_tcp
    then returns (tcp_destination addr port)
    else if network == target_network_udp
    then returns (udp_destination addr port)
    else fails

-- The global ID is there if the frame has data for a new UDP session.
unfoldable pub read_global_id : FrameMetadata → List ℕ → FrameMetadata
read_global_id f rest =
    if f.session_status == status_new
      && (has_data f.option && (is_udp f.target.network && leb 8 (length rest)))
    then record f { global_id = take 8 rest }
    else f

unfoldable pub read_target : Text → FrameMetadata → List ℕ → Outcome FrameMetadata
read_target text f [] = fails
read_target text f (network ∷ rest) = if ltb (length rest) 3 then fails else do
  (addr, port, rest) ← read_address_port text addr_parser [] rest
  target ← read_network network addr port
  returns (read_global_id (record f { target = target }) rest)

-- `UnmarshalFromBuffer` of a buffer that holds the bytes.
unfoldable pub unmarshal_from_buffer : Text → FrameMetadata → List ℕ → Outcome FrameMetadata
unmarshal_from_buffer text f (a ∷ b ∷ status ∷ opt ∷ rest) =
    let f' = record f {
      session_id = of_be16 a b;
      session_status = status;
      option = opt;
      target = record (f.target) { network = network_unknown };
    } in
    if has_target status rest then read_target text f' rest else returns (read_global_id f' rest)
unmarshal_from_buffer text f _ = fails

-- serial.ReadUint16.
unfoldable pub read_uint16 : List ℕ → Outcome (ℕ × List ℕ)
read_uint16 (a ∷ b ∷ rest) = returns (of_be16 a b, rest)
read_uint16 _ = fails

-- `Unmarshal`: the frame, and what is left to read.
unfoldable pub unmarshal : Text → FrameMetadata → List ℕ → Outcome (FrameMetadata × List ℕ)
unmarshal text f input = do
  (meta_len, input) ← read_uint16 input
  if ltb 512 meta_len then fails else do
    (b, input) ← read_full_from [] input meta_len
    f ← unmarshal_from_buffer text f b
    returns (f, input)
