-- ===== src/Buf/Tests.antt =====
-- The theorems on buffers at concrete buffers.
use dpi_warrior_native_xray.Base.{take, drop, ◌≡◌, refl, ◌≢◌, [], ◌∷◌, arith}
use dpi_warrior_native_xray.Base.Outcome.{returns}
use dpi_warrior_native_xray.Buf.{
  Buffer, buffer_size, MultiBuffer, bytes_in, split_bytes, split_size, compact,
}
use dpi_warrior_native_xray.Buf.Split.{SplitsOff, split_size-SplitsOff, split_bytes-takes}
use dpi_warrior_native_xray.Buf.Compacting.{compact-loses}

abbrev three_bytes : Buffer
three_bytes = record { size = buffer_size; start = 0; content = 1 ∷ 2 ∷ 3 ∷ [] }

abbrev two_bytes : Buffer
two_bytes = record { size = buffer_size; start = 0; content = 4 ∷ 5 ∷ [] }

split_bytes-takes_example :
    ((split_bytes (three_bytes ∷ two_bytes ∷ []) 4).1
      ≡ take 4 (bytes_in (three_bytes ∷ two_bytes ∷ [])))
    × (bytes_in (split_bytes (three_bytes ∷ two_bytes ∷ []) 4).0
        ≡ drop 4 (bytes_in (three_bytes ∷ two_bytes ∷ [])))
split_bytes-takes_example = split_bytes-takes (three_bytes ∷ two_bytes ∷ []) 4

split_size-SplitsOff_example :
    (left : MultiBuffer) × (r : MultiBuffer) × (split_size (three_bytes ∷ two_bytes ∷ []) 4
      ≡ returns (left, r))
    × SplitsOff 4 (three_bytes ∷ two_bytes ∷ []) (left, r)
split_size-SplitsOff_example = split_size-SplitsOff (three_bytes ∷ two_bytes ∷ []) 4 (omega arith)

-- The last two bytes of a full buffer, whose other bytes have been read.
abbrev end_of_full : Buffer
end_of_full = record { size = buffer_size; start = 8190; content = 6 ∷ 7 ∷ [] }

-- The three bytes of the second buffer are lost.
compact-loses_example :
    (out : MultiBuffer) × (compact (end_of_full ∷ three_bytes ∷ []) ≡ returns out)
    × (bytes_in out ≡ end_of_full.content)
    × (bytes_in out ≢ bytes_in (end_of_full ∷ three_bytes ∷ []))
compact-loses_example = compact-loses end_of_full three_bytes refl refl (omega arith) (omega arith)
