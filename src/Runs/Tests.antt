-- ===== src/Runs/Tests.antt =====
-- Run identifiers on concrete texts.
use sessionbus.Base.{arith, codes, refl, text_eq, true, ◌≡◌}
use sessionbus.Runs.RunId.{
  cut, format_digits, format_uint, parse_uint, run_name, run_sequence, run_sequence-canonical,
  run_sequence-run_name,
}

run_sequence-run_name_example : run_sequence (run_name (codes "g") 10) ≡ (codes "g", 10, true)
run_sequence-run_name_example =
    run_sequence-run_name (codes "g") 10 refl ((λ e. absurd (omega (arith, e))), tt) (omega arith)
      (omega arith)

ten : run_sequence (codes "g/10") ≡ (codes "g", 10, true)
unfolding run_sequence cut parse_uint format_uint text_eq format_digits
ten = refl

run_sequence-canonical_example : codes "g/10" ≡ run_name (codes "g") 10
run_sequence-canonical_example = run_sequence-canonical (codes "g/10") (codes "g") 10 ten
