-- ===== src/Shell/Tokenizer/Tests.antt =====
-- Runs of the tokenizer, and its theorems at concrete lines.
use Prim.Native.Char.{code}
use Prim.Native.String.{String}
use os_tools_and_features.Prelude.{◌≡◌, refl, List, [], ◌∷◌, some, All, arith}
use os_tools_and_features.Shell.Tokenizer.{Bytes, tokenize, normal, squote, dquote, isspace}
use os_tools_and_features.Shell.Tokenizer.Bounds.{Fits, tokenize-Fits, tokenize_short}
use os_tools_and_features.Shell.Tokenizer.RoundTrip.{Item, write_line, tokenize-write_line}

abbrev codes : String → Bytes
codes String.[] = []
codes (String.◌∷◌ c s) = code c ∷ codes s

tokenize_quotes :
    tokenize (codes " ls -l 'a b'\"c\"\\ d \\")
    ≡ some (codes "ls" ∷ codes "-l" ∷ codes "a bc d" ∷ [])
unfolding tokenize
tokenize_quotes = refl

tokenize-Fits_example : All Fits (codes "ls" ∷ codes "-l" ∷ [])
unfolding tokenize
tokenize-Fits_example = tokenize-Fits (codes "ls -l") (codes "ls" ∷ codes "-l" ∷ []) refl

tokenize_short_example : (ws : List Bytes) × (tokenize (codes "a 'b") ≡ some ws)
tokenize_short_example = tokenize_short (codes "a 'b") (omega arith)

abbrev items : List Item
items =
    record { style = normal; word = codes "ls"; gap = 32 }
    ∷ record { style = squote; word = codes "a 'b"; gap = 9 }
    ∷ record { style = dquote; word = codes "\\ \""; gap = 32 }
    ∷ []

items_line : write_line items ≡ codes "\\l\\s 'a \\'b'\t\"\\\\ \\\"\" "
items_line = refl

tokenize-write_line_example :
    tokenize (write_line items) ≡ some (codes "ls" ∷ codes "a 'b" ∷ codes "\\ \"" ∷ [])
unfolding isspace
tokenize-write_line_example =
    tokenize-write_line items
      ((omega arith, refl), ((omega arith, refl), ((omega arith, refl), tt)))
