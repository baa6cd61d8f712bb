-- ===== src/Mux/Frame/Tests.antt =====
-- The parser of addresses, and a frame of a user's packet.
use dpi_warrior_native_xray.Base.{◌≡◌, refl, inr, some, [], ◌∷◌, ◌++◌, arith}
use dpi_warrior_native_xray.Base.Outcome.{returns, ◌>>=◌}
use dpi_warrior_native_xray.Net.{domain_address, network_udp, Destination}
use dpi_warrior_native_xray.AddressParser.{
  new_address_parser, apply_options, apply_option, is_valid_domain, is_valid_byte,
}
use dpi_warrior_native_xray.AddressParser.Tests.{names_only, example_name}
use dpi_warrior_native_xray.Mux.Frame.{
  FrameMetadata, new_frame, addr_options, addr_parser, write_to, unmarshal,
}
use dpi_warrior_native_xray.Mux.Frame.Reading.{received}
use dpi_warrior_native_xray.Mux.Frame.RoundTrip.{unmarshal-write_to}

addr_options_parse : new_address_parser addr_options ≡ returns addr_parser
unfolding new_address_parser apply_options apply_option
addr_options_parse = refl

abbrev server : Destination
server = record { address = some (domain_address example_name); port = 53; network = network_udp }

abbrev first_frame : FrameMetadata
first_frame = record {
  target = server;
  session_id = 9;
  option = 1;
  session_status = 1;
  global_id = 1 ∷ 2 ∷ 3 ∷ 4 ∷ 5 ∷ 6 ∷ 7 ∷ 8 ∷ [];
}

unmarshal-write_to_example :
    (write_to first_frame (some server) >>= λ w. unmarshal names_only new_frame (w ++ (0 ∷ 3 ∷ [])))
    ≡ returns (received first_frame (some server), 0 ∷ 3 ∷ [])
unmarshal-write_to_example = unmarshal-write_to names_only first_frame (some server) (0 ∷ 3 ∷ []) (
  omega arith,
  refl,
  λ s. (
    (
      domain_address example_name,
      refl,
      (omega arith, omega arith, unfold is_valid_domain is_valid_byte in refl, refl),
      omega arith,
    ),
    inr refl,
  ),
  λ d other packet. absurd (other refl),
)
