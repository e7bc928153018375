-- ===== src/Token/Examples.antt =====
-- Tests of the token scan.
use specseed.Prelude.{◌≡◌, refl, [], ◌∷◌, some, str_eq}
use specseed.Prelude.Text.{strip_prefix}
use specseed.Token.{apr_ids_in_text, requested_apr_ids}

-- a longer number loses its leading zeros, and a token inside a word is none
in_text : apr_ids_in_text "see apr-00007, APR-0012 and XAPR-0003" ≡ "APR-0007" ∷ "APR-0012" ∷ []
unfolding apr_ids_in_text str_eq
in_text = refl

asked :
    requested_apr_ids (
      record {
        id = "1";
        author = some "robot";
        body = some "Approve? <!-- specseed:approval-request APR-0002 -->";
        reactions = [];
      }
      ∷ [])
    ≡ "APR-0002" ∷ []
unfolding requested_apr_ids str_eq strip_prefix
asked = refl
