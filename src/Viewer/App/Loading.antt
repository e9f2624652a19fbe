-- ===== src/Viewer/App/Loading.antt =====
-- Validity of the viewer's state, and that loading channels and changes keeps it.
use ize.Prelude.{
  ℕ, ◌<◌, ◌≡◌, refl, ◌⊎◌, inl, inr, List, [], ◌∷◌, String, arith, Result-cases, length,
  Option-cases,
}
use ize.Viewer.App.{Env, Backend, App, load_channel_changes, show_channels, update_channels}

-- An index within a list, unless the list is empty.
abbrev pub Fits {ℓ} : {A : Type ℓ} → List A → ℕ → Type ℓ
Fits xs i = (xs ≡ []) ⊎ (i < length xs)

pub record IsValid (app : App) : Type 0 where
  pub channels_fit : (app.channel_names ≡ []) ⊎ (app.channels_index < length app.channel_names)
  pub changes_fit : (app.changes ≡ []) ⊎ (app.changes_index < length app.changes)

fits_first {ℓ} : {A : Type ℓ} (xs : List A) → (xs ≡ []) ⊎ (0 < length xs)
fits_first [] = inl refl
fits_first (x ∷ xs) = inr (omega arith)

pub load_channel_changes-IsValid :
    (env : Env) (app : App) (b : Backend) → IsValid app → IsValid (load_channel_changes env app b)
unfolding load_channel_changes
load_channel_changes-IsValid env app b v = elim (Result-cases (b.log_reverse b.current_channel)) [
  | inl (infos, e) ↦
      rw (e, load_channel_changes)
        (record { channels_fit = v.channels_fit; changes_fit = fits_first _ })
  | inr (e, failed) ↦
      rw (failed, load_channel_changes)
        (record { channels_fit = v.channels_fit; changes_fit = inl refl })
]

show_channels-IsValid :
    (env : Env) (app : App) (b : Backend) (names : List String)
    → IsValid app
    → IsValid (show_channels env app b names)
unfolding show_channels
show_channels-IsValid env app b [] v = record {
  channels_fit = inl refl;
  changes_fit = v.changes_fit;
}
show_channels-IsValid env app b (first ∷ rest) v =
    let w =
      load_channel_changes-IsValid env
        (record app { channel_names = first ∷ rest; channels_index = 0; active_channel = first }) b
        (record { channels_fit = inr (omega arith); changes_fit = v.changes_fit }) in
    record { channels_fit = w.channels_fit; changes_fit = w.changes_fit }

pub update_channels-IsValid :
    (env : Env) (app : App) → IsValid app → IsValid (update_channels env app)
unfolding update_channels
update_channels-IsValid env app v = elim (Option-cases app.selected_project) [
  | inl e ↦ rw (e, update_channels) v
  | inr (p, e) ↦ elim (Result-cases (env.open_backend p)) [
    | inr (message, failed) ↦
        rw (e, failed, update_channels)
          (record { channels_fit = v.channels_fit; changes_fit = v.changes_fit })
    | inl (b, opened) ↦ elim (Result-cases b.list_channels) [
      | inr (message, failed) ↦
          rw (e, opened, failed, update_channels)
            (record { channels_fit = v.channels_fit; changes_fit = v.changes_fit })
      | inl (names, listed) ↦
          rw (e, opened, listed, update_channels) (show_channels-IsValid env app b names v)
    ]
  ]
]
