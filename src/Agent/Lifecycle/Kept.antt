-- ===== src/Agent/Lifecycle/Kept.antt =====
-- What a call can do to the state, part by part.
use craftec_core.Agent.State.{HostState, if_permitted, with_text, number_or_fail}
use craftec_core.Agent.HostFns.{log, emit_event, get_config}
use craftec_core.Agent.Permissions.{PermissionError}
use craftec_core.Agent.Words.{slice_at, is_utf8}
use craftec_core.Maps.{get}
use craftec_core.Settlement.Accounts.{ℤ}
use craftec_core.Prelude.{
  ℕ, Option, none, some, and_then, List, Byte, key_eq, ◌≡◌, refl, ◌∙◌, subst, inl, inr, Bool-cases,
  Option-cases,
}

module _ {Db Store : Type 0} where
  -- The state after a call, if it returns, is as asked.
  abbrev pub Kept : (HostState Db Store → Type 0) → Option (HostState Db Store × Option ℤ) → Type 0
  Kept P none = Unit
  Kept P (some r) = P r.0

  pub Kept-some :
      (P : HostState Db Store → Type 0) (o : Option (HostState Db Store × Option ℤ))
      (t : HostState Db Store) (n : Option ℤ)
      → o ≡ some (t, n)
      → Kept P o
      → P t
  Kept-some P o t n e kept = subst (Kept P) e kept

  pub if_permitted-Kept :
      (P : HostState Db Store → Type 0) (o : Option PermissionError) (s : HostState Db Store)
      (rest : Option (HostState Db Store × Option ℤ))
      → P s
      → Kept P rest
      → Kept P (if_permitted o s rest)
  if_permitted-Kept P none s rest here there = there
  if_permitted-Kept P (some e) s rest here there = here

  pub with_text-Kept :
      (P : HostState Db Store → Type 0) (memory : Option (List Byte)) (ptr len : ℤ)
      (s : HostState Db Store) (rest : List Byte → Option (HostState Db Store × Option ℤ))
      → P s
      → ((text : List Byte) → Kept P (rest text))
      → Kept P (with_text memory ptr len s rest)
  with_text-Kept P none ptr len s rest here there = here
  with_text-Kept P (some data') ptr len s rest here there =
      elim (Option-cases (slice_at data' ptr len)) [
        | inl panic ↦ rw panic tt
        | inr (bytes, found) ↦ rw found (elim (Bool-cases (is_utf8 bytes)) [
          | inl text ↦ rw text (there bytes)
          | inr no_text ↦ rw no_text here
        ])
      ]

  pub number_or_fail-Kept :
      (P : HostState Db Store → Type 0) (s : HostState Db Store) (n : Option ℕ)
      → P s
      → Kept P (number_or_fail s n)
  number_or_fail-Kept P s none here = here
  number_or_fail-Kept P s (some n) here = here

  -- What a guest shares with the host, and what it may do, is the same.
  pub record SameShare (s t : HostState Db Store) : Type 0 where
    pub same_store : t.store ≡ s.store
    pub same_buffer : t.shared_buffer ≡ s.shared_buffer
    pub same_permissions : t.permissions ≡ s.permissions
    pub same_config : t.config ≡ s.config

  -- So is the database.
  pub record SameData (s t : HostState Db Store) : Type 0 where
    pub same_share : SameShare s t
    pub same_db : t.db ≡ s.db

  pub unchanged : (s : HostState Db Store) → SameShare s s
  unchanged s = record {
    same_store = refl;
    same_buffer = refl;
    same_permissions = refl;
    same_config = refl;
  }

  pub SameShare-trans : (s t u : HostState Db Store) → SameShare s t → SameShare t u → SameShare s u
  SameShare-trans s t u f g = record {
    same_store = g.same_store ∙ f.same_store;
    same_buffer = g.same_buffer ∙ f.same_buffer;
    same_permissions = g.same_permissions ∙ f.same_permissions;
    same_config = g.same_config ∙ f.same_config;
  }

  pub two_slices-Kept :
      (P : HostState Db Store → Type 0) (data' : List Byte) (a b c d : ℤ)
      (make : List Byte → List Byte → HostState Db Store)
      → ((x y : List Byte) → P (make x y))
      → Kept P (
          and_then
            (slice_at data' a b)
            (λ x. and_then (slice_at data' c d) (λ y. some (make x y, none))))
  two_slices-Kept P data' a b c d make holds = elim (Option-cases (slice_at data' a b)) [
    | inl panic ↦ rw panic tt
    | inr (x, found) ↦ rw found (elim (Option-cases (slice_at data' c d)) [
      | inl panic ↦ rw panic tt
      | inr (y, read) ↦ rw read (holds x y)
    ])
  ]

  pub log-Kept :
      (memory : Option (List Byte)) (a b c d : ℤ) (s : HostState Db Store)
      → Kept (SameData s) (log memory a b c d s)
  log-Kept none a b c d s = record { same_share = unchanged s; same_db = refl }
  log-Kept (some data') a b c d s = two_slices-Kept (SameData s) data' a b c d _ (λ x y. record {
    same_share = record {
      same_store = refl;
      same_buffer = refl;
      same_permissions = refl;
      same_config = refl;
    };
    same_db = refl;
  })

  pub emit_event-Kept :
      (memory : Option (List Byte)) (a b c d : ℤ) (s : HostState Db Store)
      → Kept (SameData s) (emit_event memory a b c d s)
  emit_event-Kept none a b c d s = record { same_share = unchanged s; same_db = refl }
  emit_event-Kept (some data') a b c d s = two_slices-Kept (SameData s) data' a b c d _ (λ x y.
      record {
        same_share = record {
          same_store = refl;
          same_buffer = refl;
          same_permissions = refl;
          same_config = refl;
        };
        same_db = refl;
      })

  pub get_config-Kept :
      (memory : Option (List Byte)) (a b : ℤ) (s : HostState Db Store)
      → Kept (SameData s) (get_config memory a b s)
  get_config-Kept memory a b s =
      let here : SameData s s = record { same_share = unchanged s; same_db = refl } in
      with_text-Kept (SameData s) memory a b s _ here (λ key.
        elim (Option-cases (get key_eq s.config key)) [
          | inl missing ↦ rw missing here
          | inr (val, found) ↦ rw found here
        ])
