-- ===== src/Server/Chunks/Opening.antt =====
-- Opening the file leaves the data in it that was received.
use net_copy.Common.{
  ℕ, ◌≤◌, ◌≡◌, refl, sym, ap, ◌∙◌, ◌⊎◌, subst, List, [], length, Bool, true, false, not, ◌&&◌, ltb,
  Bool-cases, inl, inr, Option, none, some, ok, arith,
}
use net_copy.Files.Path.{Text}
use net_copy.Files.Disk.{FileSystem, IsPosix, open_write, preallocate_file}
use net_copy.Files.Disk.Laws.{BeginsWith, open_write-BeginsWith, preallocate_file-BeginsWith}
use net_copy.Server.State.{ConnectionHandler, World}
use net_copy.Server.Chunks.{preallocate, is_open_at, open_stream}

none_received :
    (received : List ℕ) (truncate opened : Bool)
    → (truncate ≡ false) ⊎ ((received ≡ []) × (opened ≡ false))
    → truncate ≡ true
    → received ≡ []
none_received received truncate opened (inl kept) h = absurd (cc)
none_received received truncate opened (inr (e, n)) h = e

open_keeps :
    (received : List ℕ) (truncate opened : Bool)
    → (truncate ≡ false) ⊎ ((received ≡ []) × (opened ≡ false))
    → opened ≡ true
    → truncate ≡ false
open_keeps received truncate opened (inl kept) h = kept
open_keeps received truncate opened (inr (e, n)) h = absurd (cc)

module _ (F : FileSystem) (P : IsPosix F) where
  -- The file of the transfer is a plain one, and begins with what was received. A truncation that is
  -- still to be done finds nothing received.
  pub record Receiving (path : Text) (expected : ℕ) (received : List ℕ) (w : World F) : Type 0 where
    pub at : w.handler.current_file_path ≡ path
    pub expects : w.handler.current_expected_file_size ≡ expected
    pub plain : w.handler.current_is_symlink ≡ false
    pub begins : BeginsWith received (F.content path w.disk)
    pub truncated :
        (w.handler.current_truncate_on_zero ≡ false)
        ⊎ ((received ≡ []) × (is_open_at w.handler.stream w.handler.current_file_path ≡ false))

  preallocate-BeginsWith :
      (path : Text) (received : List ℕ) (h : ConnectionHandler) (d : F.Disk)
      → h.current_file_path ≡ path
      → length received ≤ h.current_expected_file_size
      → BeginsWith received (F.content path d)
      → BeginsWith received (F.content path (preallocate F h d))
  preallocate-BeginsWith path received h d at room b =
      elim (Bool-cases (
        h.config.preallocate_files
        && (not h.current_preallocated && ltb 0 h.current_expected_file_size))) [
          | inl y ↦ rw y (
              subst
                (λ q. BeginsWith received (
                  F.content path
                    (preallocate_file F q h.current_expected_file_size h.current_auto_create d)))
                (sym at)
                (preallocate_file-BeginsWith F P path h.current_expected_file_size
                  h.current_auto_create received d room b))
          | inr n ↦ rw n b
        ]

  pub record Opened (path : Text) (expected : ℕ) (received : List ℕ) (w : World F) : Type 0 where
    pub receiving : Receiving path expected received w
    pub kept : w.handler.current_truncate_on_zero ≡ false

  open_stream-Opened :
      (path : Text) (expected : ℕ) (received : List ℕ) (w : World F) (o : Option F.Disk)
      → open_write F w.handler.current_file_path w.handler.current_truncate_on_zero
          w.handler.current_auto_create w.disk
        ≡ o
      → is_open_at w.handler.stream w.handler.current_file_path ≡ false
      → length received ≤ expected
      → Receiving path expected received w
      → (open_stream F w).0 ≡ ok tt
      → Opened path expected received (open_stream F w).1
  open_stream-Opened path expected received w none e n room r done =
      absurd (let f = rw (n, e) at done in cc)
  open_stream-Opened path expected received w (some d) e n room r done =
      rw (n, e)
        (record {
          kept = refl;
          receiving = record {
            at = r.at;
            expects = r.expects;
            plain = r.plain;
            begins =
                preallocate-BeginsWith path received w.handler d r.at (omega (arith, r.expects)) (
                  open_write-BeginsWith F P path w.handler.current_truncate_on_zero
                    w.handler.current_auto_create received w.disk d
                    (none_received received _ _ r.truncated) r.begins
                    (ap
                        (λ q.
                          open_write F q w.handler.current_truncate_on_zero
                            w.handler.current_auto_create w.disk)
                        (sym r.at)
                      ∙ e));
            truncated = inl refl;
          };
        })

  pub open_stream-Receiving :
      (path : Text) (expected : ℕ) (received : List ℕ) (w : World F) (u : Unit {0})
      → length received ≤ expected
      → Receiving path expected received w
      → (open_stream F w).0 ≡ ok u
      → Opened path expected received (open_stream F w).1
  open_stream-Receiving path expected received w u room r done =
      elim (Bool-cases (is_open_at w.handler.stream w.handler.current_file_path)) [
        | inl y ↦ rw y (record { kept = open_keeps received _ _ r.truncated y; receiving = r })
        | inr n ↦
            open_stream-Opened path expected received w
              (open_write F w.handler.current_file_path w.handler.current_truncate_on_zero
                w.handler.current_auto_create w.disk)
              refl n room r done
      ]
