-- ===== src/Expose/Controllers.antt =====
-- internal/expose/client.go: the resource and the replicas of a controller, which are read by
-- reflection, with internal/reflectconversions/conversions.go.
use localizer.Base.{
  ℕ, Bytes, codes, [], ◌++◌, Option, none, some, str_eq, if◌then◌else◌, Result, ok, err, panic,
  ◌>>=◌,
}

-- What package reflect sees of a Go value; `other` is a value of any other kind.
mutual
  pub data GoValue : Type 0 where
    nil_pointer : GoValue
    pointer : GoValue → GoValue
    struct : Fields → GoValue
    int32 : ℕ → GoValue
    other : Bytes → GoValue

  pub data Fields : Type 0 where
    no_fields : Fields
    field : Bytes → GoValue → Fields → Fields

unfoldable pub find_field : Bytes → Fields → Option GoValue
find_field name no_fields = none
find_field name (field n v fields) =
    let rest = find_field name fields in if str_eq n name then some v else rest

-- `FieldByName`, whose zero value is none here; it panics for a value that is no struct.
unfoldable pub field_by_name : Bytes → GoValue → Result (Option GoValue)
unfolding find_field
field_by_name name (struct fields) = ok (find_field name fields)
field_by_name name nil_pointer = panic
field_by_name name (pointer v) = panic
field_by_name name (int32 n) = panic
field_by_name name (other t) = panic

-- `conversion.EnforcePtr` of k8s.io/apimachinery, and the text `%v: %v (%#v)` of a value.
pub record Reflection : Type 0 where
  pub enforce_ptr : GoValue → Result GoValue
  pub described : GoValue → Bytes

module _ (r : Reflection) where
  unfoldable pub enforce_struct : GoValue → Result (Unit {0})
  enforce_struct (struct _) = ok tt
  enforce_struct v = err (codes "expected struct, but got " ++ r.described v)

  abbrev pub number_of : GoValue → Result ℕ
  number_of (int32 n) = ok n
  number_of v = err (codes "expected Replicas to be int32, but got " ++ r.described v)

  abbrev pub present : Bytes → Option GoValue → Result GoValue
  present message none = err message
  present message (some v) = ok v

  -- The second look at the kind is one at the object again, and not at its `Spec`.
  unfoldable pub get_replicas_from_object : GoValue → Result ℕ
  unfolding enforce_struct field_by_name
  get_replicas_from_object obj = r.enforce_ptr obj >>= λ v. enforce_struct v >>= λ _.
      field_by_name (codes "Spec") v >>= λ found.
      present (codes "struct lacks struct Spec") found >>= λ spec. enforce_struct v >>= λ _.
      field_by_name (codes "Replicas") spec >>= λ found.
      present (codes "struct lacks field replicas") found >>= λ replicas.
      r.enforce_ptr replicas >>= number_of

-- The type of an object of the stores.
pub data ObjectType : Type 0 where
  deployment stateful_set unknown : ObjectType

unfoldable pub kind_text : ObjectType → Bytes
kind_text deployment = codes "deployment"
kind_text stateful_set = codes "statefulset"
kind_text unknown = []

-- `getMapping`: the argument is `RESTMapping` for a kind of group `apps` in version `v1`.
unfoldable pub get_mapping : (Bytes → Result Bytes) → ObjectType → Result Bytes
unfolding kind_text
get_mapping rest_mapping type = rest_mapping (kind_text type)
