-- ===== src/Service/Loops/Frames.antt =====
-- The frames of one round of `flush_windows` (backend/realtime/routes.py).
use network_backend_article.Base.{
  ℕ, ◌+◌, ◌≡◌, ◌⊎◌, Bool, true, false, List, [], ◌∷◌, ◌++◌, map, length,
}
use network_backend_article.Base.Result.{Result, ok, err, driver_error}
use network_backend_article.Realtime.Window.{Buffer, Frame}
use network_backend_article.Database.{Database, FrameRow, frame_row}
use network_backend_article.Service.Hub.{Change}
use network_backend_article.Service.Loops.{Live}

-- All frames are stored where the database is connected, in their order.
abbrev pub stored : {F : Type 0} → Bool → List (Frame F) → List (FrameRow F)
stored false fs = []
stored true fs = map frame_row fs

module _ {F : Type 0} where
  -- The database has taken the frames, behind those that it had.
  pub record IsStored (db : Database F) (fs : List (Frame F)) (db' : Database F) : Type 0 where
    pub rows : db'.tables.frames ≡ db.tables.frames ++ stored db.connected fs
    pub connected : db'.connected ≡ db.connected
    pub counted : db'.metrics.frames_emitted ≡ db.metrics.frames_emitted

  -- The server took the frames before one that it refused, and none behind it.
  pub record IsRefused (answers : Frame F → Bool) (db : Database F) (fs : List (Frame F))
      (db' : Database F) : Type 0 where
    pub sent : List (Frame F)
    pub refused : Frame F
    pub lost : List (Frame F)
    pub frames : fs ≡ sent ++ refused ∷ lost
    pub answer : answers refused ≡ false
    pub state : IsStored db sent db'

  abbrev One : Bool → Frame F → Database F → Result (Unit {0}) × Database F → Type 0
  One answer f db r =
      ((r.0 ≡ ok tt) × IsStored db (f ∷ []) r.1)
      ⊎ ((r.0 ≡ err driver_error) × (answer ≡ false) × (r.1 ≡ db))

  abbrev pub Outcome :
      (Frame F → Bool) → Live F → List (Frame F) → Result (Unit {0}) × Live F → Type 0
  Outcome answers l fs r =
      (r.1.window_buffer ≡ l.window_buffer)
      × (((r.0 ≡ ok tt) × IsStored l.database fs r.1.database)
          ⊎ ((r.0 ≡ err driver_error) × IsRefused answers l.database fs r.1.database))

  module _ (accepts : ℕ → Bool) (meanwhile : List Change) (answers : Frame F → Bool) where
    -- The counts of a round that stored all its frames.
    abbrev pub Finished : Live F → List (Frame F) → Live F → Type 0
    Finished l fs l' =
        (l'.database.tables.frames ≡ l.database.tables.frames ++ stored l.database.connected fs)
        × (l'.database.metrics.frames_emitted ≡ l.database.metrics.frames_emitted + length fs)

    abbrev pub Account : Live F → List (Frame F) → Buffer F → Result (Unit {0}) × Live F → Type 0
    Account l fs b r =
        (r.1.window_buffer ≡ b)
        × (((r.0 ≡ ok tt) × Finished l fs r.1)
            ⊎ ((r.0 ≡ err driver_error) × IsRefused answers l.database fs r.1.database))
