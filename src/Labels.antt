-- ===== src/Labels.antt =====
-- clients/go/pkg/audit/labels.go: the mutator that adds the configured labels. Go's order over the
-- keys of a map is unspecified; a list has one order.
use lumberjack.Prelude.{
  String, ◌≡◌, refl, Option, none, some, [], ◌∷◌, Dict, lookup, insert, lookup-insert, NodupKeys,
  is_some, if◌then◌else◌, eq_iff, arith, Option-cases, inl, inr, is_empty,
}
use lumberjack.Errors.{done}
use lumberjack.Api.{AuditLogRequest}
use lumberjack.Client.{Processor}

pub record LabelProcessor : Type 0 where
  pub default_labels : Dict String

copy_labels : Dict String → Dict String → Dict String
copy_labels [] cp = cp
copy_labels ((k, v) ∷ labels) cp = copy_labels labels (insert k v cp)

-- `NewLabelProcessor`
unfoldable pub new_label_processor : Dict String → LabelProcessor
unfolding copy_labels
new_label_processor labels = record { default_labels = copy_labels labels [] }

-- the loop of `Process`
unfoldable pub add_labels : Dict String → Dict String → Dict String
add_labels [] labels = labels
add_labels ((k, v) ∷ defaults) labels =
    add_labels defaults (if is_some (lookup k labels) then labels else insert k v labels)

abbrev pub or_empty : Option (Dict String) → Dict String
or_empty none = []
or_empty (some d) = d

-- `(*LabelProcessor).Process`
unfoldable pub process_labels : LabelProcessor → AuditLogRequest → AuditLogRequest
unfolding add_labels
process_labels p r =
    if is_empty p.default_labels
    then r
    else record r { labels = some (add_labels p.default_labels (or_empty r.labels)) }

unfoldable pub label_processor : {W : Type 0} → LabelProcessor → Processor W
unfolding process_labels
label_processor p = record {
  process = λ r w. record { world = w; request = process_labels p r; exit = done };
  stop = none;
}

-- The first of two values that is there.
abbrev pub or_else : Option String → Option String → Option String
or_else (some v) o = some v
or_else none o = o

or_else-none : (o : Option String) → or_else o none ≡ o
or_else-none none = refl
or_else-none (some v) = refl

lookup-add_labels :
    (k : String) (defaults labels : Dict String)
    → lookup k (add_labels defaults labels) ≡ or_else (lookup k labels) (lookup k defaults)
unfolding add_labels lookup
lookup-add_labels k [] labels = ground arith
lookup-add_labels k ((j, v) ∷ defaults) labels = elim (Option-cases (lookup j labels)) [
  | inl absent ↦ ground (
    arith,
    lookup-add_labels k defaults (insert j v labels),
    lookup-insert j k v labels,
    eq_iff j k,
  )
  | inr (u, there) ↦ ground (arith, lookup-add_labels k defaults labels, eq_iff j k)
]

lookup-process_labels_from :
    (k : String) (defaults : Dict String) (r : AuditLogRequest)
    → lookup k (or_empty (process_labels (record { default_labels = defaults }) r).labels)
      ≡ or_else (lookup k (or_empty r.labels)) (lookup k defaults)
unfolding process_labels lookup
lookup-process_labels_from k [] r = ground arith
lookup-process_labels_from k ((j, v) ∷ d) r = lookup-add_labels k ((j, v) ∷ d) (or_empty r.labels)

lookup-copy_labels :
    (k : String) (labels cp : Dict String)
    → NodupKeys labels
    → lookup k (copy_labels labels cp) ≡ or_else (lookup k labels) (lookup k cp)
unfolding copy_labels lookup
lookup-copy_labels k [] cp h = refl
lookup-copy_labels k ((j, v) ∷ labels) cp (fresh, h) =
    ground
      (arith, lookup-copy_labels k labels (insert j v cp) h, lookup-insert j k v cp, eq_iff j k)

-- With a processor that was made from the configured labels, a map, a request keeps every label that
-- it has, gains the configured label of each key that it lacks, and gets no other label.
pub lookup-process_labels :
    (k : String) (labels : Dict String) (r : AuditLogRequest)
    → NodupKeys labels
    → lookup k (or_empty (process_labels (new_label_processor labels) r).labels)
      ≡ or_else (lookup k (or_empty r.labels)) (lookup k labels)
unfolding new_label_processor lookup
lookup-process_labels k labels r h = rw (
  lookup-process_labels_from k (copy_labels labels []) r,
  lookup-copy_labels k labels [] h,
  or_else-none (lookup k labels),
)
