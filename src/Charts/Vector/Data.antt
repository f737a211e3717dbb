-- ===== src/Charts/Vector/Data.antt =====
-- The measurements, the names and the themes. The dictionaries have the same six keys, which are the
-- constructors here, and a float is given by its digits.
use rostam_bench.Base.{ℕ, Bool, true, false, Option, none, some, List, [], ◌∷◌}
use rostam_bench.Python.Errors.{Text}
use rostam_bench.Python.Dumps.{codes}

-- `ORDER`
pub data Engine : Type 0 where
  rostam milvus pgvector weaviate qdrant redis : Engine

abbrev pub order : List Engine
order = rostam ∷ milvus ∷ pgvector ∷ weaviate ∷ qdrant ∷ redis ∷ []

-- `number m d` is m / 10 ^ d.
module _ {F : Type 0} (number : ℕ → ℕ → F) where
  -- `CURVE`: the first pair of recall and throughput, and the others.
  abbrev pub curve : Engine → (F × F) × List (F × F)
  curve rostam = (
    (number 8889 4, number 46915 1),
    (number 9694 4, number 26754 1)
        ∷ (number 9877 4, number 16609 1)
        ∷ (number 9952 4, number 10423 1)
        ∷ (number 9978 4, number 7139 1)
        ∷ [],
  )
  curve milvus = (
    (number 9080 4, number 25889 1),
    (number 9838 4, number 10232 1) ∷ (number 9906 4, number 8054 1) ∷ [],
  )
  curve pgvector = (
    (number 9075 4, number 28332 1),
    (number 9747 4, number 10871 1) ∷ (number 9897 4, number 6029 1) ∷ [],
  )
  curve weaviate = (
    (number 8741 4, number 11355 1),
    (number 9618 4, number 9472 1) ∷ (number 9829 4, number 7569 1) ∷ [],
  )
  curve qdrant = (
    (number 9675 4, number 6620 1),
    (number 9926 4, number 3856 1) ∷ (number 9968 4, number 2769 1) ∷ [],
  )
  curve redis = (
    (number 8731 4, number 8799 1),
    (number 9616 4, number 4239 1) ∷ (number 9828 4, number 2398 1) ∷ [],
  )

  -- `load`, `cpu` and `cores` of `LOAD`.
  pub record Load : Type 0 where
    pub load : F
    pub cpu : F
    pub cores : F

  abbrev pub load_of : Engine → Load
  load_of rostam = record { load = number 2822 1; cpu = number 19338 1; cores = number 754 2 }
  load_of milvus = record { load = number 4763 1; cpu = number 26956 1; cores = number 981 2 }
  load_of pgvector = record { load = number 3861 1; cpu = number 26370 1; cores = number 1104 2 }
  load_of weaviate = record { load = number 14327 1; cpu = number 49370 1; cores = number 886 2 }
  load_of qdrant = record { load = number 5922 1; cpu = number 23860 1; cores = number 992 2 }
  load_of redis = record { load = number 13549 1; cpu = number 13555 1; cores = number 100 2 }

-- `MATCHED`
abbrev pub Matched : Type 0
Matched = Text × (Engine → Option ℕ)

abbrev pub at_0_95 : Engine → Option ℕ
at_0_95 rostam = some 3161
at_0_95 milvus = some 1721
at_0_95 pgvector = some 1729
at_0_95 weaviate = some 973
at_0_95 qdrant = none
at_0_95 redis = some 484

abbrev pub at_0_97 : Engine → Option ℕ
at_0_97 rostam = some 2642
at_0_97 milvus = some 1308
at_0_97 pgvector = some 1209
at_0_97 weaviate = some 873
at_0_97 qdrant = some 634
at_0_97 redis = some 351

abbrev pub at_0_98 : Engine → Option ℕ
at_0_98 rostam = some 2088
at_0_98 milvus = some 1102
at_0_98 pgvector = some 916
at_0_98 weaviate = some 783
at_0_98 qdrant = some 524
at_0_98 redis = some 264

abbrev pub at_0_99 : Engine → Option ℕ
at_0_99 rostam = some 1471
at_0_99 milvus = some 826
at_0_99 pgvector = none
at_0_99 weaviate = none
at_0_99 qdrant = some 414
at_0_99 redis = none

abbrev pub levels : List Matched
levels =
    (codes "0.95", at_0_95)
    ∷ (codes "0.97", at_0_97)
    ∷ (codes "0.98", at_0_98)
    ∷ (codes "0.99", at_0_99)
    ∷ []

-- `LABEL`
abbrev pub label : Engine → Text
label rostam = codes "Rostam"
label milvus = codes "Milvus"
label pgvector = codes "pgvector"
label weaviate = codes "Weaviate"
label qdrant = codes "Qdrant"
label redis = codes "Redis"

pub record Colors : Type 0 where
  pub ink : Text
  pub muted : Text
  pub faint : Text
  pub rule : Text
  pub grid : Text
  pub bg : Text
  pub good : Text
  pub e : Engine → Text

abbrev light_e : Engine → Text
light_e rostam = codes "#B45309"
light_e milvus = codes "#0E8C86"
light_e pgvector = codes "#4457C9"
light_e weaviate = codes "#5E8C1F"
light_e qdrant = codes "#C2385C"
light_e redis = codes "#7B57C4"

-- `THEME["light"]`; `good` is the key `ok`.
abbrev pub light_colors : Colors
light_colors = record {
  ink = codes "#0F151D";
  muted = codes "#55616F";
  faint = codes "#8994A2";
  rule = codes "#DCE1E7";
  grid = codes "#E7EBEF";
  bg = codes "#FFFFFF";
  good = codes "#0E7C5A";
  e = light_e;
}

abbrev dark_e : Engine → Text
dark_e rostam = codes "#F0A22E"
dark_e milvus = codes "#35C4BB"
dark_e pgvector = codes "#7F90F2"
dark_e weaviate = codes "#9CCB4B"
dark_e qdrant = codes "#F0708F"
dark_e redis = codes "#AC8DF0"

-- `THEME["dark"]`; `good` is the key `ok`.
abbrev pub dark_colors : Colors
dark_colors = record {
  ink = codes "#E4E9EF";
  muted = codes "#93A0AE";
  faint = codes "#64717F";
  rule = codes "#2A3542";
  grid = codes "#1E2732";
  bg = codes "#0D1117";
  good = codes "#3FBE8F";
  e = dark_e;
}

-- `k == "rostam"`
abbrev pub is_lead : Engine → Bool
is_lead rostam = true
is_lead k = false
