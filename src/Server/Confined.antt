-- ===== src/Server/Confined.antt =====
-- Code that leaves a part of the handler as it is, such as the file of the transfer, the settings and the
-- user.
pub mod Writes
pub mod Prepares
pub mod Grants
pub mod Downloads
pub mod Reached
pub mod Tests
use net_copy.Common.{
  ℕ, ◌≡◌, refl, ◌∙◌, List, Bool, true, false, if◌then◌else◌, Option, none, some, Result, ok, throw,
  NetCopyException,
}
use net_copy.Auth.UserDb.{UserDb}
use net_copy.Files.Path.{Text}
use net_copy.Files.Disk.{FileSystem}
use net_copy.Server.Run.{◌>>=◌, pass, current, return, throw_if}
use net_copy.Server.State.{
  ServerConfig, ConnectionHandler, World, Run, or_raise, set_handler, set_disk,
}

-- What says which file is written, and who may write where.
pub record Target : Type 0 where
  pub path : Text
  pub config : ServerConfig
  pub user_db : UserDb
  pub user : List ℕ

abbrev pub target_of : ConnectionHandler → Target
target_of h = record {
  path = h.current_file_path;
  config = h.config;
  user_db = h.user_db;
  user = h.authenticated_user;
}

module _ (F : FileSystem) {K : Type 0} (key : ConnectionHandler → K) where
  -- Code that does not change what `key` takes from the handler.
  pub data Keeps {A : Type 0} (m : Run F A) : Type 0 where
    keeps : ((w : World F) → key (m w).1.handler ≡ key w.handler) → Keeps m

  pub same :
      {A : Type 0} {m : Run F A} → Keeps m → (w : World F) → key (m w).1.handler ≡ key w.handler
  same (keeps h) = h

  pass_same :
      {A B : Type 0} (r : Result A × World F) (f : A → Run F B)
      → ((a : A) → Keeps (f a))
      → key (pass r f).1.handler ≡ key r.1.handler
  pass_same (ok a, w) f h = same (h a) w
  pass_same (throw e, w) f h = refl

  pub then-Keeps :
      {A B : Type 0} (m : Run F A) (f : A → Run F B)
      → Keeps m
      → ((a : A) → Keeps (f a))
      → Keeps (m >>= f)
  then-Keeps m f hm hf = keeps (λ w. pass_same (m w) f hf ∙ same hm w)

  pub if-Keeps :
      {A : Type 0} (b : Bool) (m n : Run F A) → Keeps m → Keeps n → Keeps (if b then m else n)
  if-Keeps true m n hm hn = hm
  if-Keeps false m n hm hn = hn

  pub throw_if-Keeps : (b : Bool) (e : NetCopyException) → Keeps (throw_if b e)
  throw_if-Keeps true e = keeps (λ w. refl)
  throw_if-Keeps false e = keeps (λ w. refl)

  pub or_raise-Keeps :
      (e : NetCopyException) (o : World F → Option F.Disk) → Keeps (λ w. or_raise F e (o w) w)
  or_raise-Keeps e o = keeps (λ w. raised (o w) w)
    where
      raised : (d : Option F.Disk) (w : World F) → key (or_raise F e d w).1.handler ≡ key w.handler
      raised none w = refl
      raised (some d) w = refl

  pub set_disk-Keeps : (f : F.Disk → F.Disk) → Keeps (set_disk F f)
  set_disk-Keeps f = keeps (λ w. refl)

  pub set_handler-Keeps :
      (f : ConnectionHandler → ConnectionHandler)
      → ((h : ConnectionHandler) → key (f h) ≡ key h)
      → Keeps (set_handler F f)
  set_handler-Keeps f h = keeps (λ w. h w.handler)

  pub current-Keeps : Keeps (current {W = World F})
  current-Keeps = keeps (λ w. refl)

  pub return-Keeps : {A : Type 0} (a : A) → Keeps (return a)
  return-Keeps a = keeps (λ w. refl)
