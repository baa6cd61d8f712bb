-- ===== src/Kcp/Crypt/Tests.antt =====
-- Sealing at a concrete input.
use dpi_warrior_native_xray.Base.{◌≡◌, some, [], ◌∷◌, ◌>>=◌, arith}
use dpi_warrior_native_xray.Kcp.Crypt.{seal, open_sealed}
use dpi_warrior_native_xray.Kcp.Crypt.Undo.{open_sealed-seal}

open_sealed-seal_example :
    (seal (104 ∷ 105 ∷ 33 ∷ []) >>= open_sealed) ≡ some (some (104 ∷ 105 ∷ 33 ∷ []))
open_sealed-seal_example = open_sealed-seal (104 ∷ 105 ∷ 33 ∷ []) (omega arith)
