-- ===== src/Utils/Tests.antt =====
-- `to_human_size` of crates/core/src/utils.rs at a concrete number.
use anvil_zksync.Base.{◌+◌, ◌/◌, ◌≡◌, refl, reverse, [], ◌∷◌, length, arith}
use anvil_zksync.Utils.HumanSize.{
  to_human_size, marked, without_marks, MarksFrom, to_human_size_lem,
}

grouped : to_human_size (b'1' ∷ b'2' ∷ b'3' ∷ b'4' ∷ []) ≡ b'1' ∷ b'_' ∷ b'2' ∷ b'3' ∷ b'4' ∷ []
unfolding to_human_size marked
grouped = refl

to_human_size_lem_example :
    (without_marks (to_human_size (b'1' ∷ b'2' ∷ b'3' ∷ b'4' ∷ []))
      ≡ b'1' ∷ b'2' ∷ b'3' ∷ b'4' ∷ [])
    × MarksFrom 0 (reverse (to_human_size (b'1' ∷ b'2' ∷ b'3' ∷ b'4' ∷ [])))
    × (length (to_human_size (b'1' ∷ b'2' ∷ b'3' ∷ b'4' ∷ [])) ≡ 4 + 3 / 3)
to_human_size_lem_example = to_human_size_lem b'1' (b'2' ∷ b'3' ∷ b'4' ∷ []) (omega arith)
