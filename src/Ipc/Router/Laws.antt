-- ===== src/Ipc/Router/Laws.antt =====
-- The handler that a method reaches, of crates/ipc/src/namespace.rs.
use craftec_core.Ipc.Router.{
  Answer, bad, unknown_method, split_once, NamespacedHandler, call_handler, call_namespace,
  call_parts, handle,
}
use craftec_core.Maps.{get}
use craftec_core.Prelude.{
  ◌==◌, ==_iff, Option, none, some, List, [], ◌∷◌, ◌++◌, All, Byte, key_eq, ◌≡◌, ◌≢◌, ◌⊎◌, refl, ap,
  ◌∙◌, inl, inr, Bool-cases, Option-cases,
}

-- A text without a dot.
abbrev pub IsDotless : List Byte → Type 0
IsDotless text = All (λ b. b.value ≢ 46) text

-- The first part has no dot, and ends where one stands.
abbrev IsSplit : List Byte → List Byte × List Byte → Type 0
IsSplit text parts =
    IsDotless parts.0 × ((dot : Byte) × (dot.value ≡ 46) × (text ≡ parts.0 ++ dot ∷ parts.1))

split_once-cases :
    (text : List Byte)
    → ((split_once text ≡ none) × IsDotless text)
      ⊎ ((parts : List Byte × List Byte) × (split_once text ≡ some parts) × IsSplit text parts)
unfolding split_once
split_once-cases [] = inl (refl, tt)
split_once-cases (b ∷ bs) = elim (Bool-cases (b.value == 46)) [
  | inl here ↦ inr (([], bs), rw here refl, (tt, (b, (==_iff b.value 46).0 here, refl)))
  | inr later ↦
      let other : b.value ≢ 46 = λ e. (let same = (==_iff b.value 46).1 e in cc) in
      elim (split_once-cases bs) [
        | inl (e, free) ↦ inl (rw (later, e) refl, (other, free))
        | inr (parts, e, (free, (dot, is_dot, shape))) ↦ inr (
          (b ∷ parts.0, parts.1),
          rw (later, e) refl,
          ((other, free), (dot, is_dot, ap (◌∷◌ b) shape)),
        )
      ]
]

module _ {Value State : Type 0} (r : NamespacedHandler Value State) where
  -- The method names a namespace, up to its first dot, that has a handler; and the rest of it.
  abbrev pub IsRouted :
      List Byte → (List Byte → Option Value → State → State × Answer Value) → List Byte → Type 0
  IsRouted method h rest =
      (ns : List Byte) × (dot : Byte) × IsDotless ns
      × (dot.value ≡ 46)
      × (method ≡ ns ++ dot ∷ rest)
      × (get key_eq r.handlers ns ≡ some h)

  -- The method has no dot, or no handler for what stands before the first one.
  abbrev pub IsUnrouted : List Byte → Type 0
  IsUnrouted method =
      IsDotless method
      ⊎ ((ns : List Byte) × (dot : Byte) × (rest : List Byte) × IsDotless ns
          × (dot.value ≡ 46)
          × (method ≡ ns ++ dot ∷ rest)
          × (get key_eq r.handlers ns ≡ none))

  abbrev IsHandled : List Byte → Option Value → State → Type 0
  IsHandled method params s =
      ((h : List Byte → Option Value → State → State × Answer Value) × (rest : List Byte) × IsRouted
          method h rest
        × (handle r method params s ≡ h rest params s))
      ⊎ (IsUnrouted method
          × (handle r method params s ≡ call_handler method r.default method params s))

  handle-IsHandled :
      (method : List Byte) (params : Option Value) (s : State) → IsHandled method params s
  unfolding handle
  handle-IsHandled method params s = elim (split_once-cases method) [
    | inl (whole, free) ↦ inr (inl free, ap (λ o. call_parts r method o params s) whole)
    | inr ((ns, rest), parts, (free, (dot, is_dot, shape))) ↦
        let start = ap (λ o. call_parts r method o params s) parts in
        elim (Option-cases (get key_eq r.handlers ns)) [
          | inl absent ↦ inr (
            inr (ns, dot, rest, free, is_dot, shape, absent),
            start ∙ ap (λ o. call_namespace r method o rest params s) absent,
          )
          | inr (h, found) ↦ inl (
            h,
            rest,
            (ns, dot, free, is_dot, shape, found),
            start ∙ ap (λ o. call_namespace r method o rest params s) found,
          )
        ]
  ]

  -- A method that names a namespace with a handler, up to its first dot, is handled by it without the
  -- namespace. Any other is handled whole by the default handler, and is an error, which changes
  -- nothing, if there is none.
  pub handle-cases :
      (method : List Byte) (params : Option Value) (s : State)
      → ((h : List Byte → Option Value → State → State × Answer Value) × (rest : List Byte)
          × IsRouted method h rest
          × (handle r method params s ≡ h rest params s))
        ⊎ (((h : List Byte → Option Value → State → State × Answer Value) × IsUnrouted method
              × (r.default ≡ some h)
              × (handle r method params s ≡ h method params s))
            ⊎ (IsUnrouted method
                × (r.default ≡ none)
                × (handle r method params s ≡ (s, bad (unknown_method ++ method)))))
  handle-cases method params s = elim (handle-IsHandled method params s) [
    | inl routed ↦ inl routed
    | inr (unrouted, e) ↦ elim (Option-cases r.default) [
      | inl absent ↦
          inr (inr (unrouted, absent, e ∙ ap (λ o. call_handler method o method params s) absent))
      | inr (h, found) ↦
          inr (inl (h, unrouted, found, e ∙ ap (λ o. call_handler method o method params s) found))
    ]
  ]
