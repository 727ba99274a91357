-- ===== src/Tests/Text.antt =====
-- Runs of the text functions.
use simple_server.Prelude.{◌≡◌, refl, some, [], ◌∷◌, codes, All, arith}
use simple_server.Text.Search.{find, starts_with}
use simple_server.Text.Replace.{
  replace_all, replace_loop, find_from, replaced, replace_all-replaced,
}
use simple_server.Text.Words.{split_words, split_loop, split_step, split_end}
use simple_server.Text.Decimal.{to_decimal, decimal_loop, IsDigit, value_from, to_decimal-value}

replace_all-replaced_example :
    replace_all 8 (codes "a-b--c") (codes "-") (codes "+")
    ≡ some (replaced (codes "-") (codes "+") 0 (codes "a-b--c"))
replace_all-replaced_example =
    replace_all-replaced b'-' [] (codes "+") 8 (codes "a-b--c") (omega arith)

replace_run : replace_all 8 (codes "a-b--c") (codes "-") (codes "+=") ≡ some (codes "a+=b+=+=c")
unfolding replace_all replace_loop find_from find starts_with
replace_run = refl

split_run : split_words (codes "/a//bc") b'/' ≡ codes "a" ∷ codes "bc" ∷ []
unfolding split_words split_loop split_step split_end
split_run = refl

to_decimal-value_run : All IsDigit (to_decimal 2048) × (value_from 0 (to_decimal 2048) ≡ 2048)
to_decimal-value_run = to_decimal-value 2048

decimal_run : to_decimal 2048 ≡ codes "2048"
unfolding to_decimal decimal_loop
decimal_run = refl
