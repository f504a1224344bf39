-- ===== src/Options/Values/Laws.antt =====
-- Amounts and rates of service/label_options.go: trimming first changes no amount.
use canada_post.Prelude.{String, ◌≡◌}
use canada_post.Text.{trim}
use canada_post.Text.Laws.{trim_idem}
use canada_post.Float64.{Float64}
use canada_post.Options.Values.{parse_amount}

module _ ⦃fl : Float64⦄ where
  pub parse_amount-trim : (v : String) → parse_amount (trim v) ≡ parse_amount v
  unfolding parse_amount
  parse_amount-trim v = rw trim_idem
