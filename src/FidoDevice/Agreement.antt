-- ===== src/FidoDevice/Agreement.antt =====
-- What the verifier makes of the client data of a signature: CppClient/CppClient/FIDODevice.cpp against
-- CppClient/CppClient/FidoVerifier.cpp. The JSON parser is a parameter.
use Prim.Native.String.{String}
use windows_fido_logon.Base.{
  ℕ, ◌≡◌, Bool, true, false, not, ◌&&◌, some, [], ◌∷◌, ◌++◌, all, Bytes, codes, leb, ltb, ◌==◌,
}
use windows_fido_logon.External.Json.{JsonLibrary}
use windows_fido_logon.FidoDevice.{FidoDevice}

-- A printable ASCII character that stands for itself in a JSON string.
abbrev pub is_plain : ℕ → Bool
is_plain c = leb 32 c && ltb c 127 && not (c == 34) && not (c == 92)

abbrev pub IsPlain : Bytes → Type 0
IsPlain text = all is_plain text ≡ true

-- The JSON text of an object with the members type, challenge, origin and crossOrigin, without spaces; 34, 44, 58, 123 and
-- 125 are the quotation mark, the comma, the colon and the braces.
abbrev pub label : String → Bytes
label name = 34 ∷ (codes name ++ (34 ∷ 58 ∷ []))

abbrev pub truth_value : Bool → Bytes
truth_value true = codes "true"
truth_value false = codes "false"

abbrev pub spelled : (type challenge origin : Bytes) → Bool → Bytes
spelled type challenge origin cross =
    123
    ∷ (label "type"
        ++ (34
            ∷ (type
                ++ (34
                    ∷ 44
                    ∷ (label "challenge"
                        ++ (34
                            ∷ (challenge
                                ++ (34
                                    ∷ 44
                                    ∷ (label "origin"
                                        ++ (34
                                            ∷ (origin
                                                ++ (34
                                                    ∷ 44
                                                    ∷ (label "crossOrigin"
                                                        ++ (truth_value cross
                                                            ++ (125 ∷ [])))))))))))))))

-- A parser of JSON reads such a text, of plain strings, as the object with these members.
abbrev pub IsReading : JsonLibrary → Type 0
IsReading json =
    (type challenge origin : Bytes) (cross : Bool)
    → IsPlain type
    → IsPlain challenge
    → IsPlain origin
    → (value : json.Json) × (json.parse (spelled type challenge origin cross) ≡ some value)
      × (json.value_string value "type" [] ≡ some type)
      × (json.value_string value "challenge" [] ≡ some challenge)
      × (json.value_string value "origin" [] ≡ some origin)
      × (json.value_bool value "crossOrigin" false ≡ some cross)
