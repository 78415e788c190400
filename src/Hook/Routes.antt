-- ===== src/Hook/Routes.antt =====
-- Where the functions of src/io/hook.cpp lead to.
use net_base.Base.{ap, ◌∙◌, ◌≡◌, refl, Bool, true, false, not, ◌||◌, some, if◌then◌else◌}
use net_base.Hook.{
  Call, usleep, send, fcntl, ioctl, Hooks, hook_init, through, asking, not_asking, call,
}
use net_base.Hook

-- The calls that do not ask whether the hooks are enabled.
abbrev pub ignores_switch : Call → Bool
ignores_switch usleep = true
ignores_switch send = true
ignores_switch fcntl = true
ignores_switch ioctl = true
ignores_switch _ = false

-- The state behind a call that did `f`.
abbrev pub behind : {R W : Type 0} → (Call → W → R × W) → Call → Hooks → W → R × Hooks × W
behind f c h w = ((f c w).0, record h { inited = true }, (f c w).1)

hook_init-inited : (h : Hooks) → hook_init h ≡ record h { inited = true }
unfolding hook_init
hook_init-inited h = go h.enabled h.inited
  where
    go :
        (e i : Bool)
        → hook_init (record { enabled = e; inited = i }) ≡ record { enabled = e; inited = true }
    go e true = refl
    go e false = refl

switch :
    {A : Type 0} (e : Bool) (x y : A)
    → (if not e then some x else some y) ≡ some (if e then y else x)
switch true x y = refl
switch false x y = refl

either : {A : Type 0} (e : Bool) (x y : A) → x ≡ (if e || true then x else y)
either true x y = refl
either false x y = refl

or_false : {A : Type 0} (e : Bool) (x y : A) → (if e then x else y) ≡ (if e || false then x else y)
or_false true x y = refl
or_false false x y = refl

module _ {R W : Type 0} (sys co : Call → W → R × W) where
  asking-behind :
      (c : Call) (h : Hooks) (w : W)
      → asking sys co c h w ≡ some (if h.enabled then behind co c h w else behind sys c h w)
  unfolding asking through hook_init
  asking-behind c h w =
      ap (λ i. if not i.enabled then through sys c i w else through co c i w) (hook_init-inited h)
      ∙ switch h.enabled (behind sys c h w) (behind co c h w)

  not_asking-behind :
      (c : Call) (h : Hooks) (w : W) → not_asking sys co c h w ≡ some (behind co c h w)
  unfolding not_asking through hook_init
  not_asking-behind c h w = ap (λ i. through co c i w) (hook_init-inited h)

  -- Every call has its pointers looked up, and leads to its version for coroutines if the hooks
  -- are enabled or it is usleep, send, fcntl or ioctl, and to the system's version otherwise.
  pub call-behind :
      (c : Call) (h : Hooks) (w : W)
      → call sys co c h w
        ≡ some (if h.enabled || ignores_switch c then behind co c h w else behind sys c h w)
  unfolding call
  call-behind Hook.sleep h w = asking-behind Hook.sleep h w ∙ ap some (or_false h.enabled _ _)
  call-behind Hook.usleep h w =
      not_asking-behind Hook.usleep h w
      ∙ ap some (either h.enabled (behind co Hook.usleep h w) (behind sys Hook.usleep h w))
  call-behind Hook.nanosleep h w =
      asking-behind Hook.nanosleep h w ∙ ap some (or_false h.enabled _ _)
  call-behind Hook.socket h w = asking-behind Hook.socket h w ∙ ap some (or_false h.enabled _ _)
  call-behind Hook.connect h w = asking-behind Hook.connect h w ∙ ap some (or_false h.enabled _ _)
  call-behind Hook.accept h w = asking-behind Hook.accept h w ∙ ap some (or_false h.enabled _ _)
  call-behind Hook.read h w = asking-behind Hook.read h w ∙ ap some (or_false h.enabled _ _)
  call-behind Hook.readv h w = asking-behind Hook.readv h w ∙ ap some (or_false h.enabled _ _)
  call-behind Hook.recv h w = asking-behind Hook.recv h w ∙ ap some (or_false h.enabled _ _)
  call-behind Hook.recvfrom h w = asking-behind Hook.recvfrom h w ∙ ap some (or_false h.enabled _ _)
  call-behind Hook.recvmsg h w = asking-behind Hook.recvmsg h w ∙ ap some (or_false h.enabled _ _)
  call-behind Hook.write h w = asking-behind Hook.write h w ∙ ap some (or_false h.enabled _ _)
  call-behind Hook.writev h w = asking-behind Hook.writev h w ∙ ap some (or_false h.enabled _ _)
  call-behind Hook.send h w =
      not_asking-behind Hook.send h w
      ∙ ap some (either h.enabled (behind co Hook.send h w) (behind sys Hook.send h w))
  call-behind Hook.sendto h w = asking-behind Hook.sendto h w ∙ ap some (or_false h.enabled _ _)
  call-behind Hook.sendmsg h w = asking-behind Hook.sendmsg h w ∙ ap some (or_false h.enabled _ _)
  call-behind Hook.close h w = asking-behind Hook.close h w ∙ ap some (or_false h.enabled _ _)
  call-behind Hook.fcntl h w =
      not_asking-behind Hook.fcntl h w
      ∙ ap some (either h.enabled (behind co Hook.fcntl h w) (behind sys Hook.fcntl h w))
  call-behind Hook.ioctl h w =
      not_asking-behind Hook.ioctl h w
      ∙ ap some (either h.enabled (behind co Hook.ioctl h w) (behind sys Hook.ioctl h w))
  call-behind Hook.getsockopt h w =
      asking-behind Hook.getsockopt h w ∙ ap some (or_false h.enabled _ _)
  call-behind Hook.setsockopt h w =
      asking-behind Hook.setsockopt h w ∙ ap some (or_false h.enabled _ _)
