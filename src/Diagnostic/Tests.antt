-- ===== src/Diagnostic/Tests.antt =====
-- The theorems on diagnostic messages at concrete messages.
use libdoip.Base.{ℕ, ◌≡◌, some, List, [], ◌∷◌, map, arith, pos, inr}
use libdoip.Exec.{M, returns}
use libdoip.Base.Memory.{Buffer}
use libdoip.Diagnostic.{create_diagnostic_message}
use libdoip.Diagnostic.Receive.{
  parse_diagnostic_message, parse_diagnostic_message_delivers, parse_diagnostic_message_refuses,
}
use libdoip.Diagnostic.Create.{create_diagnostic_message_lem}

-- A callback that keeps what it is given.
abbrev keep : ℕ → Buffer → ℕ → M (List ℕ) (Unit {0})
keep target message n s = returns (tt, target ∷ n ∷ [])

parse_diagnostic_message_delivers_example :
    parse_diagnostic_message keep
      (some (0x0e ∷ 0x00 ∷ []))
      (0x0e ∷ 0x00 ∷ 0x10 ∷ 0x01 ∷ 0x22 ∷ [])
      (pos 5)
      []
    ≡ returns (0, 0x1001 ∷ 1 ∷ [])
parse_diagnostic_message_delivers_example =
    parse_diagnostic_message_delivers keep 0x0e 0x00 0x10 0x01 (0x22 ∷ []) [] (omega arith)
      (omega arith)

parse_diagnostic_message_refuses_example :
    parse_diagnostic_message keep
      (some (0x0e ∷ 0x00 ∷ []))
      (0x0e ∷ 0x01 ∷ 0x10 ∷ 0x01 ∷ 0x22 ∷ [])
      (pos 5)
      []
    ≡ returns (2, [])
parse_diagnostic_message_refuses_example =
    parse_diagnostic_message_refuses keep 0x0e 0x00 0x0e 0x01 5 (0x10 ∷ 0x01 ∷ 0x22 ∷ []) []
      (inr (omega arith)) (omega arith)

create_diagnostic_message_lem_example :
    create_diagnostic_message 0x0e00 (some (0x00 ∷ 0x28 ∷ [])) (0x22 ∷ 0xf1 ∷ []) 2
    ≡ some (
        map some (
          0x02 ∷ 0xfd ∷ 0x80 ∷ 0x01 ∷ 0 ∷ 0 ∷ 0 ∷ 6 ∷ 0x0e ∷ 0x00 ∷ 0x00 ∷ 0x28 ∷ 0x22 ∷ 0xf1 ∷ []))
create_diagnostic_message_lem_example =
    create_diagnostic_message_lem 0x0e00 0x00 0x28 (0x22 ∷ 0xf1 ∷ []) (omega arith)
