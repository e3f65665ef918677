-- ===== src/Cradle.antt =====
-- core/executor/cradle: what a policy stands for, and the defaults of a formula. `MakeCradle` only
-- calls the file system and is left out. A panic on an unknown policy is `none`.
pub mod Laws
mod Examples
use mathlib.Core.Option
use repeatr.Base.{ℕ, Option, none, some, List, [], ◌∷◌, Text, str, text_eq, ◌==◌, if◌then◌else◌}
use repeatr.Base.Dict.{Dict}
use repeatr.Formula.{Formula}
use repeatr.Formula.Clone.{clone}
use repeatr.Formula.Patch.{merge}

abbrev pub policy_routine : Text
policy_routine = str "routine"

abbrev pub policy_uid_zero : Text
policy_uid_zero = str "uidzero"

abbrev pub policy_governor : Text
policy_governor = str "governor"

abbrev pub policy_sysad : Text
policy_sysad = str "sysad"

-- The four lists of `CapsForPolicy`.
abbrev pub routine_caps : List Text
routine_caps = str "CAP_AUDIT_WRITE" ∷ str "CAP_KILL" ∷ str "CAP_NET_BIND_SERVICE" ∷ []

abbrev pub uid_zero_caps : List Text
uid_zero_caps = str "CAP_AUDIT_WRITE" ∷ str "CAP_KILL" ∷ str "CAP_NET_BIND_SERVICE" ∷ []

abbrev pub governor_caps : List Text
governor_caps =
    str "CAP_AUDIT_WRITE"
    ∷ str "CAP_CHOWN"
    ∷ str "CAP_DAC_OVERRIDE"
    ∷ str "CAP_FSETID"
    ∷ str "CAP_FOWNER"
    ∷ str "CAP_KILL"
    ∷ str "CAP_NET_BIND_SERVICE"
    ∷ str "CAP_NET_RAW"
    ∷ str "CAP_SETGID"
    ∷ str "CAP_SETUID"
    ∷ str "CAP_SETFCAP"
    ∷ str "CAP_SETPCAP"
    ∷ str "CAP_SYS_CHROOT"
    ∷ []

abbrev pub sysad_caps : List Text
sysad_caps =
    str "CAP_AUDIT_CONTROL"
    ∷ str "CAP_AUDIT_WRITE"
    ∷ str "CAP_BLOCK_SUSPEND"
    ∷ str "CAP_CHOWN"
    ∷ str "CAP_DAC_OVERRIDE"
    ∷ str "CAP_DAC_READ_SEARCH"
    ∷ str "CAP_FOWNER"
    ∷ str "CAP_FSETID"
    ∷ str "CAP_IPC_LOCK"
    ∷ str "CAP_IPC_OWNER"
    ∷ str "CAP_KILL"
    ∷ str "CAP_LEASE"
    ∷ str "CAP_LINUX_IMMUTABLE"
    ∷ str "CAP_MAC_ADMIN"
    ∷ str "CAP_MAC_OVERRIDE"
    ∷ str "CAP_MKNOD"
    ∷ str "CAP_NET_ADMIN"
    ∷ str "CAP_NET_BIND_SERVICE"
    ∷ str "CAP_NET_BROADCAST"
    ∷ str "CAP_NET_RAW"
    ∷ str "CAP_SETGID"
    ∷ str "CAP_SETFCAP"
    ∷ str "CAP_SETPCAP"
    ∷ str "CAP_SETUID"
    ∷ str "CAP_SYS_ADMIN"
    ∷ str "CAP_SYS_BOOT"
    ∷ str "CAP_SYS_CHROOT"
    ∷ str "CAP_SYS_MODULE"
    ∷ str "CAP_SYS_NICE"
    ∷ str "CAP_SYS_PACCT"
    ∷ str "CAP_SYS_PTRACE"
    ∷ str "CAP_SYS_RAWIO"
    ∷ str "CAP_SYS_RESOURCE"
    ∷ str "CAP_SYS_TIME"
    ∷ str "CAP_SYS_TTY_CONFIG"
    ∷ str "CAP_SYSLOG"
    ∷ str "CAP_WAKE_ALARM"
    ∷ []

-- A `switch` over the four policies.
abbrev pub by_policy {ℓ} : {A : Type ℓ} → Text → A → A → A → A → Option A
by_policy p routine uid_zero governor sysad =
    if p == policy_routine
    then some routine
    else if p == policy_uid_zero
    then some uid_zero
    else if p == policy_governor
    then some governor
    else if p == policy_sysad
    then some sysad
    else none

-- `CapsForPolicy`
unfoldable pub caps_for_policy : Text → Option (List Text)
caps_for_policy p = by_policy p routine_caps uid_zero_caps governor_caps sysad_caps

-- `type Userinfo struct`
pub record Userinfo : Type 0 where
  pub uid : ℕ
  pub gid : ℕ
  pub home : Text

abbrev pub luser : Userinfo
luser = record { uid = 1000; gid = 1000; home = str "/home/luser" }

abbrev pub root : Userinfo
root = record { uid = 0; gid = 0; home = str "/root" }

-- `UserinfoForPolicy`
unfoldable pub userinfo_for_policy : Text → Option Userinfo
userinfo_for_policy p = by_policy p luser root root root

-- `DefaultEnv`
unfoldable pub default_env : Text → Option (Dict Text Text)
unfolding userinfo_for_policy
default_env p =
    Option.map
      (λ u.
        (str "PATH", str "/usr/local/sbin:/usr/local/bin:/usr/sbin:/usr/bin:/sbin:/bin")
        ∷ (str "HOME", u.home)
        ∷ [])
      (userinfo_for_policy p)

-- `DefaultCwd`
abbrev pub default_cwd : Text
default_cwd = str "/task"

abbrev pub or_default : Text → Text → Text
or_default x default = if x == [] then default else x

abbrev pub with_defaults : Formula → Text → Dict Text Text → Formula
with_defaults f policy env = record f {
  action = record f.action {
    policy = policy;
    env = merge f.action.env env;
    cwd = or_default f.action.cwd default_cwd;
  };
}

-- `ApplyDefaults`
unfoldable pub apply_defaults : Formula → Option Formula
unfolding default_env
apply_defaults frm =
    let f = clone frm in
    let policy = or_default f.action.policy policy_routine in
    Option.map (with_defaults f policy) (default_env policy)
