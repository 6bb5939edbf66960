-- ===== src/Json/Plain.antt =====
-- A JSON library that meets the law of reading back: a document is its own text, without members.
use Prim.Native.String.append
use Prim.Native.String.{String, ◌++◌ as ◌<>◌}
use byte_waterlevel.Prelude.{◌≡◌, refl, ap, true, false, [], some}
use byte_waterlevel.Prelude.Int.{pos}
use byte_waterlevel.Floats.Milli.{Milli}
use byte_waterlevel.Json.{JsonLib, ReadsBack, IsPretty}

-- A text without its last two characters.
abbrev drop_two : String → String
drop_two String.[] = String.[]
drop_two (String.◌∷◌ a String.[]) = String.[]
drop_two (String.◌∷◌ a (String.◌∷◌ b String.[])) = String.[]
drop_two (String.◌∷◌ a (String.◌∷◌ b (String.◌∷◌ c s))) =
    String.◌∷◌ a (drop_two (String.◌∷◌ b (String.◌∷◌ c s)))

abbrev pub plain : JsonLib Milli
plain = record {
  Json = String;
  new_document = "";
  empty_object = "{}";
  member = λ _ _. "";
  set_member = λ j _ _. j;
  set_element = λ j _ _. j;
  contains_key = λ _ _. false;
  keys = λ _. [];
  is_null = λ _. false;
  is_object = λ _. false;
  is_int = λ _. false;
  is_bool = λ _. false;
  is_string = λ _. true;
  as_bool = λ _. false;
  as_int = λ _. pos 0;
  as_u8 = λ _. 0;
  as_float = λ _. some 0;
  as_string = λ s. s;
  of_bool = λ _. "";
  of_int = λ _. "";
  of_float = λ _. "";
  of_string = λ s. s;
  parse = λ s. (drop_two s, false);
  serialize = λ s. s;
  serialize_pretty = λ s. s <> "\r\n";
}

drop_two-append : (s : String) → drop_two (s <> "\r\n") ≡ s
drop_two-append String.[] = refl
drop_two-append (String.◌∷◌ a String.[]) = rw append.cons refl
drop_two-append (String.◌∷◌ a (String.◌∷◌ b String.[])) = rw (append.cons, append.cons) refl
drop_two-append (String.◌∷◌ a (String.◌∷◌ b (String.◌∷◌ c s))) =
    rw (append.cons, append.cons, append.cons)
      (ap (String.◌∷◌ a)
        (rw (append.cons, append.cons) at (drop_two-append (String.◌∷◌ b (String.◌∷◌ c s)))))

pub plain-ReadsBack : (s : String) → ReadsBack plain s
plain-ReadsBack s = ap (λ t. (t, false)) (drop_two-append s)

pub plain-IsPretty : IsPretty plain
plain-IsPretty = record { parse-serialize_pretty = λ s. ap (λ t. (t, false)) (drop_two-append s) }
