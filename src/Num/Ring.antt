-- ===== src/Num/Ring.antt =====
-- Facts that follow from exact arithmetic.
use trading_crew.Prelude.{◌≡◌, sym, ap, ◌∙◌}
use trading_crew.Num.{Num, R, ◌+◌, ◌-◌, ◌*◌, zero_num}
use trading_crew.Num.Laws.{IsExact}

module _ ⦃num : Num⦄ (laws : IsExact) where
  open laws use {add_comm, add_assoc, add_zero, sub-add, mul_comm, mul-add}

  zero_add : (a : R) → zero_num + a ≡ a
  zero_add a = add_comm zero_num a ∙ add_zero a

  -- A sum is cancelled: by adding 0 - c on both sides.
  add_cancel : (a b c : R) → a + c ≡ b + c → a ≡ b
  add_cancel a b c h = sym (undo a) ∙ ap (λ x. x + (zero_num - c)) h ∙ undo b
    where
      undo : (x : R) → x + c + (zero_num - c) ≡ x
      undo x =
          add_assoc x c (zero_num - c)
          ∙ ap (λ y. x + y) (add_comm c (zero_num - c) ∙ sub-add zero_num c)
          ∙ add_zero x

  pub add-sub : (a b : R) → a + b - b ≡ a
  add-sub a b = add_cancel (a + b - b) a b (sub-add (a + b) b)

  -- An equation is shown by showing it after adding.
  pub sub_eq : (a b c : R) → a ≡ c + b → a - b ≡ c
  sub_eq a b c h = ap (λ x. x - b) h ∙ add-sub c b

  pub sub_self : (a : R) → a - a ≡ zero_num
  sub_self a = sub_eq a a zero_num (sym (zero_add a))

  pub sub_zero : (a : R) → a - zero_num ≡ a
  sub_zero a = sub_eq a zero_num a (sym (add_zero a))

  -- Regrouping of a difference: (a - b) + c = (a + c) - b.
  pub sub-add_comm : (a b c : R) → a - b + c ≡ a + c - b
  sub-add_comm a b c = sym (
      sub_eq (a + c) b (a - b + c) (
        sym (
          add_assoc (a - b) c b
          ∙ ap (λ x. a - b + x) (add_comm c b)
          ∙ sym (add_assoc (a - b) b c)
          ∙ ap (λ x. x + c) (sub-add a b))))

  -- (a - b) - c = a - (c + b).
  pub sub_sub : (a b c : R) → a - b - c ≡ a - (c + b)
  sub_sub a b c = sym (
      sub_eq a (c + b) (a - b - c)
        (sym (sym (add_assoc (a - b - c) c b) ∙ ap (λ x. x + b) (sub-add (a - b) c) ∙ sub-add a b)))

  pub mul-sub : (a b c : R) → a * (b - c) ≡ a * b - a * c
  mul-sub a b c = sym (
      sub_eq (a * b) (a * c) (a * (b - c))
        (ap (λ x. a * x) (sym (sub-add b c)) ∙ mul-add a (b - c) c))

  pub sub-mul : (a b c : R) → (a - b) * c ≡ a * c - b * c
  sub-mul a b c =
      mul_comm (a - b) c
      ∙ mul-sub c a b
      ∙ ap (λ x. x - c * b) (mul_comm c a)
      ∙ ap (λ x. a * c - x) (mul_comm c b)

  -- What is taken and given back cancels: (a - b) + (b - c) = a - c.
  pub sub-add-sub : (a b c : R) → a - b + (b - c) ≡ a - c
  sub-add-sub a b c = sym (
      sub_eq a c (a - b + (b - c))
        (sym (add_assoc (a - b) (b - c) c ∙ ap (λ x. a - b + x) (sub-add b c) ∙ sub-add a b)))
