-- ===== src/Runtime.antt =====
-- The runtime contracts of src/long_haul/runtime.py: identities and validations of profiles.
-- `canonical` and the like stand for a value's JSON text, by which alone the code compares it.
use long_haul.Prelude.{
  Bool, true, false, ◌&&◌, Option, none, some, List, [], ◌∷◌, ◌++◌, all, nat_eq, length, Text,
  codes, ◌==◌,
}
use long_haul.Prelude.Dict.{Dict, get}
use long_haul.Prelude.Strings.{sorted}

pub data ValidationState : Type 0 where
  supported unsupported unknown : ValidationState

pub data ValidationDepth : Type 0 where
  structural preflight execution benchmark : ValidationDepth

-- bool | str
pub data Capability : Type 0 where
  flag : Bool → Capability
  named : Text → Capability

pub record RuntimeIdentity : Type 0 where
  pub runtime_id : Text
  pub version : Option Text
  pub build_id : Option Text
  pub binary_path : Option Text
  pub backends : List Text
  pub capabilities : Dict Capability

-- options is the JSON text of the options
pub record ProfileValidation : Type 0 where
  pub runtime : RuntimeIdentity
  pub profile_id : Text
  pub artifact_key : Text
  pub resources : List Text
  pub strategy : Text
  pub options : Text
  pub state : ValidationState
  pub depth : ValidationDepth
  pub rationale : Text

-- version or "unknown"
abbrev or_unknown : Option Text → Text
or_unknown none = codes "unknown"
or_unknown (some []) = codes "unknown"
or_unknown (some (c ∷ cs)) = c ∷ cs

-- separator.join(texts)
unfoldable pub join : Text → List Text → Text
join separator [] = []
join separator (text ∷ []) = text
join separator (text ∷ next ∷ texts) = text ++ separator ++ join separator (next ∷ texts)

-- RuntimeIdentity.fingerprint
unfoldable pub fingerprint : RuntimeIdentity → Text
unfolding join sorted
fingerprint r = join (codes "|") (
    r.runtime_id
    ∷ or_unknown r.version
    ∷ or_unknown r.build_id
    ∷ join (codes ",") (sorted r.backends)
    ∷ [])

abbrev pub same_text_option : Option Text → Option Text → Bool
same_text_option none none = true
same_text_option (some a) (some b) = a == b
same_text_option _ _ = false

abbrev pub same_texts : List Text → List Text → Bool
same_texts [] [] = true
same_texts (x ∷ xs) (y ∷ ys) = x == y && same_texts xs ys
same_texts _ _ = false

abbrev same_capability : Capability → Option Capability → Bool
same_capability (flag true) (some (flag b)) = b
same_capability (flag false) (some (flag true)) = false
same_capability (flag false) (some (flag false)) = true
same_capability (named a) (some (named b)) = a == b
same_capability _ _ = false

-- The equality of two dictionaries: the order of the items does not matter.
abbrev same_capabilities : Dict Capability → Dict Capability → Bool
same_capabilities a b =
    nat_eq (length a) (length b) && all (λ item. same_capability item.1 (get b item.0)) a

-- The equality of two models, field by field.
unfoldable pub same_runtime : RuntimeIdentity → RuntimeIdentity → Bool
unfolding get ◌==◌
same_runtime a b =
    a.runtime_id == b.runtime_id
    && same_text_option a.version b.version
    && same_text_option a.build_id b.build_id
    && same_text_option a.binary_path b.binary_path
    && same_texts a.backends b.backends
    && same_capabilities a.capabilities b.capabilities
