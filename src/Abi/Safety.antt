-- ===== src/Abi/Safety.antt =====
-- The calls of the programs keep the shared windows within their bounds: the services that the router
-- of src/idt.c has itself, and those of src/kernel.c.
use my_kernel.Base.{
  ℕ, ◌+◌, ◌==◌, ◌≡◌, sym, subst, inl, inr, All, ltb, if◌then◌else◌, ◌&&◌, List, [], ◌∷◌, length,
  Bool-cases, ==_iff,
}
use my_kernel.Gui.{Kernel, window_at, real}
use my_kernel.Gui.Bounds.{IsGui}
use my_kernel.Gui.Stores.{IsBeside, IsClear}
use my_kernel.Abi.{Service, Parts, beep}
use my_kernel.Abi.Services.{get_cmd, get_window_pos}
use my_kernel.Abi.Actions.{
  perform, choose, actions, system_action, melody, clock_text, uptime_text, ram_text,
}

-- The windows are within their bounds, and no store has touched the page that holds them.
abbrev pub IsSound : Kernel → Type 0
IsSound k = IsGui k × IsClear k

-- The other parts keep it so.
abbrev pub KeepsGui : Parts → Type 0
KeepsGui parts = (s : Service) (k : Kernel) → IsSound k → IsSound (parts s k).1

-- What a service leaves that stores nothing through a pointer.
pub IsSound-from : (k m : Kernel) → IsGui m → m.stores ≡ k.stores → IsClear k → IsSound m
IsSound-from k m gui same clear = (gui, subst (All IsBeside) (sym same) clear)

-- The text that the service 29 stores, with its terminator, where it stores one.
abbrev pub action_stores : ℕ → ℕ → Kernel → List (ℕ × ℕ)
action_stores action buffer k =
    if action == 6
    then (real buffer k, length (clock_text k.rtc) + 1) ∷ []
    else (if action == 7
        then (real buffer k, length (uptime_text k.timer_ticks) + 1) ∷ []
        else (if action == 8
            then (real buffer k, length (ram_text k.total_used_memory) + 1) ∷ []
            else []))

module _ (parts : Parts) (keeps : KeepsGui parts) where
  pub perform-IsSound : (ss : List Service) (k : Kernel) → IsSound k → IsSound (perform parts ss k)
  unfolding perform
  perform-IsSound [] k sound = sound
  perform-IsSound (s ∷ ss) k sound = perform-IsSound ss (parts s k).1 (keeps s k sound)

  choose-IsSound :
      (action : ℕ) (branches : List (ℕ × (Kernel → Kernel))) (k : Kernel)
      → All (λ b. action ≡ b.0 → IsSound (b.1 k)) branches
      → IsSound k
      → IsSound (choose action branches k)
  unfolding choose
  choose-IsSound action [] k all sound = sound
  choose-IsSound action ((n, f) ∷ branches) k all sound = elim (Bool-cases (action == n)) [
    | inl e ↦ rw (choose, e) (all.0 ((==_iff action n).0 e))
    | inr e ↦ rw (choose, e) (choose-IsSound action branches k all.1 sound)
  ]

  pub system_action-IsSound :
      (action buffer : ℕ) (k : Kernel)
      → All IsBeside (action_stores action buffer k)
      → IsSound k
      → IsSound (system_action parts action buffer k)
  unfolding system_action
  system_action-IsSound action buffer k beside sound =
      choose-IsSound action (actions parts buffer) k
        (
          (λ e. keeps beep k sound),
          (
            (λ e. perform-IsSound melody k sound),
            (
              (λ e. keeps _ k sound),
              (
                (λ e. sound),
                (
                  (λ e. sound),
                  (
                    (λ e. (sound.0, ((stored e).0, sound.1))),
                    (
                      (λ e. (sound.0, ((stored e).0, sound.1))),
                      ((λ e. (sound.0, ((stored e).0, sound.1))), tt),
                    ),
                  ),
                ),
              ),
            ),
          ),
        )
        sound
    where
      stored : {n : ℕ} → action ≡ n → All IsBeside (action_stores n buffer k)
      stored e = subst (λ a. All IsBeside (action_stores a buffer k)) e beside

pub get_cmd-IsSound :
    (buf : ℕ) (k : Kernel)
    → IsBeside (real buf k, length k.pending_command)
    → IsSound k
    → IsSound (get_cmd buf k).1
unfolding get_cmd
get_cmd-IsSound buf k beside sound = elim (Bool-cases k.command_ready) [
  | inl e ↦ rw (get_cmd, e) ((sound.0, (beside, sound.1)))
  | inr e ↦ rw (get_cmd, e) sound
]

pub get_window_pos-IsSound :
    (win_id x y w h : ℕ) (k : Kernel)
    → All IsBeside ((real h k, 4) ∷ (real w k, 4) ∷ (real y k, 4) ∷ (real x k, 4) ∷ [])
    → IsSound k
    → IsSound (get_window_pos win_id x y w h k).1
unfolding get_window_pos
get_window_pos-IsSound win_id x y w h k (a, (b, (c, (d, none_more)))) sound =
    elim (Bool-cases (ltb win_id 6 && (window_at k win_id).is_open)) [
      | inl e ↦ rw (get_window_pos, e) ((sound.0, (a, (b, (c, (d, sound.1))))))
      | inr e ↦ rw (get_window_pos, e) sound
    ]
