-- ===== src/Tests/Response.antt =====
-- The framing of a response at a head with a length.
use polyform_polyguard.Agreement.{upstream}
use polyform_polyguard.Base.{false, [], ◌∷◌, ◌≡◌, refl, codes, equal, ok, err}
use polyform_polyguard.Response.Delimits.{Frames, response_framing-Frames}
use polyform_polyguard.Response.{sized, parse_decimal, response_framing}
use polyform_polyguard.Types.{HeaderBlock}

abbrev twice : HeaderBlock
twice = record {
  fields =
      record { name = codes "content-length"; value = codes "12" }
      ∷ record { name = codes "content-length"; value = codes "012" }
      ∷ [];
  bytes_consumed = 0;
}

twice_run : response_framing twice false ≡ ok (sized 12)
unfolding response_framing parse_decimal equal
twice_run = refl

response_framing-Frames_example : Frames twice false (response_framing twice false)
response_framing-Frames_example = response_framing-Frames twice false

abbrev signed : HeaderBlock
signed = record {
  fields = record { name = codes "content-length"; value = codes "+5" } ∷ [];
  bytes_consumed = 0;
}

signed_run : response_framing signed false ≡ err upstream
unfolding response_framing parse_decimal equal
signed_run = refl
