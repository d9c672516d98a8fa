-- ===== src/Frame/Extract/Read.antt =====
-- A key with a number behind it is read.
use imx8mp_pipe_line_setup.Prelude.{◌<◌, ◌≡◌, ap, ◌∙◌, Option, some, arith, length, take, Bytes}
use imx8mp_pipe_line_setup.Double.{Stdio}
use imx8mp_pipe_line_setup.Frame.Keyed.{IsKeyed}
use imx8mp_pipe_line_setup.Frame.Keyed.Unique.{IsKeyed-OccursAt, value_unique}
use imx8mp_pipe_line_setup.Frame.Extract.{extract_double_field}
use imx8mp_pipe_line_setup.Frame.Extract.Value.{
  Extracted, absent, empty, read, extract_double_field-Extracted,
}

module _ {W : Type 0} ⦃s : Stdio W⦄ (key text : Bytes) (k : IsKeyed key text) where
  pub Extracted-IsKeyed :
      (o : Option W)
      → 0 < length k.value
      → Extracted key text o
      → o ≡ some (s.strtod (take 63 k.value))
  Extracted-IsKeyed o ne (absent never e) =
      absurd (never (length k.before) (IsKeyed-OccursAt key text k))
  Extracted-IsKeyed o ne (empty parts value_is e) =
      absurd (omega (arith, ap length value_is, ap length (value_unique key text parts k)))
  Extracted-IsKeyed o ne (read parts some_digit e) =
      e ∙ ap (λ v. some (s.strtod (take 63 v))) (value_unique key text parts k)

  pub IsKeyed-read :
      0 < length key
      → 0 < length k.value
      → extract_double_field text key ≡ some (s.strtod (take 63 k.value))
  IsKeyed-read ne some_digit =
      Extracted-IsKeyed (extract_double_field text key) some_digit
        (extract_double_field-Extracted text key ne)
