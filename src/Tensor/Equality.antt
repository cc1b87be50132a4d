-- ===== src/Tensor/Equality.antt =====
-- `operator==` on roles and `same_desc` decide equality.
use recurlocal.Base.{
  ℕ, ◌≡◌, refl, ap, sym, subst, ◌∙◌, Bool, true, false, ◌==◌, bool_eq, if◌then◌else◌, arith, ◌↔◌,
  ==_iff,
}
use recurlocal.Base.Int.{eqℤ_iff}
use recurlocal.Tensor.{
  TensorRole, unknown, recurrent_state, kv_cache, model_weight, expert_weight, activation,
  workspace, speculative_state, multimodal_feature, role_value, role_eq, TensorDesc, same_desc,
}

role_of_value : ℕ → TensorRole
role_of_value n =
    if n == 0
    then unknown
    else if n == 1
    then recurrent_state
    else if n == 2
    then kv_cache
    else if n == 3
    then model_weight
    else if n == 4
    then expert_weight
    else if n == 5
    then activation
    else if n == 6
    then workspace
    else if n == 7
    then speculative_state
    else multimodal_feature

role_of_value-role_value : (r : TensorRole) → role_of_value (role_value r) ≡ r
unfolding role_of_value
role_of_value-role_value unknown = refl
role_of_value-role_value _ = refl

pub role_eq_iff : (a b : TensorRole) → (role_eq a b ≡ true) ↔ (a ≡ b)
role_eq_iff a b = (
  λ h.
      sym (role_of_value-role_value a)
      ∙ (ap role_of_value ((==_iff _ _).0 h) ∙ role_of_value-role_value b),
  λ e. (==_iff _ _).1 (ap role_value e),
)

bool_eq→eq : (a b : Bool) → bool_eq a b ≡ true → a ≡ b
bool_eq→eq true b h = sym h
bool_eq→eq false b h = ground arith

bool_eq_refl : (a : Bool) → bool_eq a a ≡ true
bool_eq_refl true = refl
bool_eq_refl false = refl

same_desc_refl : (a : TensorDesc) → same_desc a a ≡ true
unfolding same_desc
same_desc_refl a = ground (
  arith,
  bool_eq_refl a.mutable_data,
  bool_eq_refl a.request_local,
  bool_eq_refl a.model_global,
  eqℤ_iff a.device a.device,
  eqℤ_iff a.request_id a.request_id,
)

pub same_desc→eq : (a b : TensorDesc) → same_desc a b ≡ true → a ≡ b
unfolding same_desc
same_desc→eq a b h = ground (
  arith,
  role_eq_iff a.role b.role,
  bool_eq→eq a.mutable_data b.mutable_data,
  bool_eq→eq a.request_local b.request_local,
  bool_eq→eq a.model_global b.model_global,
  eqℤ_iff a.device b.device,
  eqℤ_iff a.request_id b.request_id,
)

-- `same_desc` holds exactly of equal descriptors: it compares every field.
pub same_desc_iff : (a b : TensorDesc) → (same_desc a b ≡ true) ↔ (a ≡ b)
same_desc_iff a b = (same_desc→eq a b, λ e. subst (λ c. same_desc a c ≡ true) e (same_desc_refl a))
