-- ===== src/Value/DictLaws.antt =====
-- The laws of a dict's fields.
use image_adapter.Base.{◌≡◌, refl, String, none, some, ◌==◌, if◌then◌else◌, arith, eq_iff}
use image_adapter.Value.{Value, Fields, end, field, get, put, pop}

pub get-put :
    (k j : String) (v : Value) (d : Fields)
    → get j (put k v d) ≡ (if k == j then some v else get j d)
unfolding get put
get-put k j v end = refl
get-put k j v (field i w d) = ground (arith, eq_iff k j, eq_iff i k, eq_iff i j, get-put k j v d)

pub get-pop : (k j : String) (d : Fields) → get j (pop k d) ≡ (if k == j then none else get j d)
unfolding get pop
get-pop k j end = ground arith
get-pop k j (field i w d) = ground (arith, eq_iff k j, eq_iff i k, eq_iff i j, get-pop k j d)

-- a key that is not there
pub pop_absent : (k : String) (d : Fields) → get k d ≡ none → pop k d ≡ d
unfolding get pop
pop_absent k end h = refl
pop_absent k (field i w d) h = ground (arith, pop_absent k d)
