-- ===== src/Text/Ascii.antt =====
-- Tables that know no character beyond ASCII: they meet the laws of `Unicode`, and the tests use them.
use gongcli_mcp.Prelude.{◌≤◌, Char, code, ◌≡◌, refl, false, arith}
use gongcli_mcp.Text.Unicode.{Unicode, lower_by}

pub lower_by_beyond : (c : Char) → 128 ≤ code c → lower_by (λ d. d) c ≡ c
unfolding lower_by
lower_by_beyond c h = ground arith

abbrev pub ascii : Unicode
ascii = record {
  to_lower = λ c. c;
  letter = λ c. false;
  digit = λ c. false;
  lower_twice = lower_by_beyond;
  lower_space = λ c h s. refl;
  letter_space = λ c h s. refl;
  digit_space = λ c h s. refl;
}
