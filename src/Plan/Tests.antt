-- ===== src/Plan/Tests.antt =====
-- The cases of frontend/client/src/hooks/useChat.test.ts, as evaluations.
use v.Prelude.{◌≡◌, refl, [], ◌∷◌, some}
use v.Js
use v.Js.{Value, Items, Fields, str, obj, undefined}
use v.Plan.{normalize_plan}

abbrev contract : Value
contract = obj (Fields.field "id" (str "contract") (Fields.field "title" (str "Align") Fields.end))

abbrev envelope : Value
envelope = obj (Fields.field "steps" (Value.arr (Items.cons contract Items.nil)) Fields.end)

object_plan :
    normalize_plan envelope
    ≡ some (
        record {
          id = str "contract";
          title = str "Align";
          description = undefined;
          depends_on = undefined;
          status = str "pending";
          tool = undefined;
        }
        ∷ [])
unfolding normalize_plan Js.lookup_field Js.truthy
object_plan = refl

invalid_plan : normalize_plan (obj Fields.end) ≡ some []
unfolding normalize_plan Js.lookup_field
invalid_plan = refl
