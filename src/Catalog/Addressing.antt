-- ===== src/Catalog/Addressing.antt =====
-- References to models in gateway/internal/catalog/catalog.go and what gateway/internal/routing/resolve.go
-- sends upstream for an entry.
use cogni_gate.Prelude.{
  ℕ, ◌≡◌, ◌≢◌, ◌↔◌, [], ◌∷◌, ◌++◌, none, some, Text, refl, ◌∙◌, sym, subst, ap, arith, All, length,
  ◌<◌, Option-cases, ℕ_discrete, ◌⊎◌, inl, inr,
}
use cogni_gate.Catalog.{after_slash, before_slash, model_of, provider_of}
use cogni_gate.Catalog.Polling.{PriceTable, entry_of, qualified, with_id}
use cogni_gate.Catalog.Claims.{entry-id}
use cogni_gate.Store.{Model, Provider}
use cogni_gate.Routing.Resolve.{entry_candidate}

abbrev pub SlashFree : Text → Type 0
SlashFree t = All (λ (c : ℕ). c ≢ 47) t

after_slash-append : (s t : Text) → SlashFree s → after_slash (s ++ (47 ∷ []) ++ t) ≡ some t
unfolding after_slash
after_slash-append [] t h = ground arith
after_slash-append (c ∷ s) t h = ground (arith, h, after_slash-append s t h.1)

before_slash-append : (s t : Text) → SlashFree s → before_slash (s ++ (47 ∷ []) ++ t) ≡ s
unfolding before_slash
before_slash-append [] t h = ground arith
before_slash-append (c ∷ s) t h = ground (arith, h, before_slash-append s t h.1)

-- A qualified reference splits into the provider's name, which is not empty and has no slash, and the id, whatever
-- slashes that has.
pub model_of-qualified :
    (c : ℕ) (name id : Text)
    → SlashFree (c ∷ name)
    → (provider_of (qualified (c ∷ name) id) ≡ c ∷ name) × (model_of (qualified (c ∷ name) id) ≡ id)
unfolding model_of provider_of qualified before_slash
model_of-qualified c name id h = (
  ground (arith, h, after_slash-append name id h.1, before_slash-append name id h.1),
  ground (arith, h, after_slash-append name id h.1),
)

after_slash-none : (t : Text) → SlashFree t → after_slash t ≡ none
unfolding after_slash
after_slash-none [] h = refl
after_slash-none (c ∷ t) h = ground (arith, h, after_slash-none t h.1)

after_slash-SlashFree : (t : Text) → after_slash t ≡ none → SlashFree t
unfolding after_slash
after_slash-SlashFree [] e = tt
after_slash-SlashFree (c ∷ t) e = ground (arith, e, after_slash-SlashFree t)

length-after_slash : (t m : Text) → after_slash t ≡ some m → length m < length t
unfolding after_slash
length-after_slash [] m e = absurd (ground (arith, e))
length-after_slash (c ∷ t) m e = ground (arith, e, length-after_slash t m)

-- Nothing to split off: empty, with a slash at the start, or without any.
abbrev pub Unsplit : Text → Type 0
Unsplit [] = Unit
Unsplit (c ∷ t) = (c ≡ 47) ⊎ SlashFree (c ∷ t)

model_of_of_Unsplit : (id : Text) → Unsplit id → model_of id ≡ id
unfolding model_of
model_of_of_Unsplit [] h = refl
model_of_of_Unsplit (c ∷ t) (inl e) = ground (arith, e)
model_of_of_Unsplit (c ∷ t) (inr h) = ground (arith, h, after_slash-none t h.1)

model_of-Unsplit : (id : Text) → model_of id ≡ id → Unsplit id
unfolding model_of
model_of-Unsplit [] e = tt
model_of-Unsplit (c ∷ t) e = elim (ℕ_discrete c 47) [
  | yes slash ↦ inl slash
  | no plain ↦ elim (Option-cases (after_slash t)) [
    | inl last ↦ inr (plain, after_slash-SlashFree t last)
    | inr (m, more) ↦
        absurd (
          ground
            (arith, plain, more, e, length-after_slash t m more, ap (λ (u : Text). length u) e))
  ]
]

-- The model that goes upstream for a model that a provider lists: under the plain id it is the one listed exactly when the
-- listed id has no slash behind its first byte, or one in front; under the qualified id it is always the one listed,
-- where the provider's name is not empty and has no slash.
pub entry_candidate-listed_id :
    (prices : PriceTable) (p : Provider) (m : Model) (c : ℕ) (name : Text)
    → p.name ≡ c ∷ name
    → SlashFree p.name
    → let e = entry_of prices p m in
      (((entry_candidate e).model ≡ m.id) ↔ Unsplit m.id)
      × ((entry_candidate (with_id (qualified p.name m.id) e)).model ≡ m.id)
unfolding entry_candidate with_id
entry_candidate-listed_id prices p m c name named free =
    let listed = entry-id prices p m in
    (
      (
        λ h. model_of-Unsplit m.id (ap model_of (sym listed) ∙ h),
        λ u. ap model_of listed ∙ model_of_of_Unsplit m.id u,
      ),
      ap (λ n. model_of (qualified n m.id)) named
          ∙ (model_of-qualified c name m.id (subst SlashFree named free)).1,
    )
