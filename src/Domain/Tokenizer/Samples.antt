-- ===== src/Domain/Tokenizer/Samples.antt =====
-- Concrete values of the parameters for the tests: characters of ASCII, and no regex ever matches.
use tidyflow.Domain.Tokenizer.Evaluate.{Formats}
use tidyflow.Domain.Tokenizer.Transforms.{Unicode}
use tidyflow.Domain.Tokenizer.{is_ascii_alphanumeric, is_ascii_uppercase}
use tidyflow.Base.Text.{ascii_lower, ascii_upper, to_ascii_lowercase, to_ascii_uppercase}
use tidyflow.Base.{[], ◌∷◌, ◌&&◌, leb, none}

abbrev pub ascii : Unicode
ascii = record {
  uppercase = to_ascii_uppercase;
  lowercase = to_ascii_lowercase;
  char_upper = λ c. ascii_upper c ∷ [];
  char_lower = λ c. ascii_lower c ∷ [];
  is_alphanumeric = is_ascii_alphanumeric;
  is_uppercase = is_ascii_uppercase;
  is_lowercase = λ c. leb b'a' c && leb c b'z';
  is_numeric = λ c. leb b'0' c && leb c b'9';
  replace_all = λ pattern input replacement. input;
  find = λ pattern input. none;
}

abbrev pub formats : Formats
formats = record { unicode = ascii; format_time = λ format t. t ∷ []; show_uuid = λ id. id ∷ [] }
