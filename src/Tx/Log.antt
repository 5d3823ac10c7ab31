-- ===== src/Tx/Log.antt =====
-- What a list of effects amounts to.
use wally_io.Prelude.{ℕ, suc, ◌+◌, ◌≡◌, refl, List, [], ◌∷◌, ◌++◌, Bool, true, false, arith}
use wally_io.Packet.{MqttPacket}
use wally_io.Tx.{Effect, send, start_timer, cancel_timer, release}

-- Whether the timer is running behind the effects.
abbrev pub armed : Bool → List Effect → Bool
armed before [] = before
armed before (start_timer ∷ effects) = armed true effects
armed before (cancel_timer ∷ effects) = armed false effects
armed before (_ ∷ effects) = armed before effects

abbrev pub releases : List Effect → ℕ
releases [] = 0
releases (release ∷ effects) = suc (releases effects)
releases (_ ∷ effects) = releases effects

-- How often a PUBLISH is sent.
abbrev pub publishes : List Effect → ℕ
publishes [] = 0
publishes (send (MqttPacket.publish p) ∷ effects) = suc (publishes effects)
publishes (_ ∷ effects) = publishes effects

-- How often a PUBREL is sent.
abbrev pub pubrels : List Effect → ℕ
pubrels [] = 0
pubrels (send (MqttPacket.pubrel p) ∷ effects) = suc (pubrels effects)
pubrels (_ ∷ effects) = pubrels effects

-- How often the connection is told to stop.
abbrev pub stops : List Effect → ℕ
stops [] = 0
stops (Effect.stop ∷ effects) = suc (stops effects)
stops (_ ∷ effects) = stops effects

pub armed-append :
    (before : Bool) (xs ys : List Effect) → armed before (xs ++ ys) ≡ armed (armed before xs) ys
armed-append before [] ys = refl
armed-append before (start_timer ∷ xs) ys = armed-append true xs ys
armed-append before (cancel_timer ∷ xs) ys = armed-append false xs ys
armed-append before (send p ∷ xs) ys = armed-append before xs ys
armed-append before (release ∷ xs) ys = armed-append before xs ys
armed-append before (Effect.stop ∷ xs) ys = armed-append before xs ys

pub releases-append : (xs ys : List Effect) → releases (xs ++ ys) ≡ releases xs + releases ys
releases-append [] ys = omega arith
releases-append (x ∷ xs) ys = ground (arith, releases-append xs ys)

pub publishes-append : (xs ys : List Effect) → publishes (xs ++ ys) ≡ publishes xs + publishes ys
publishes-append [] ys = omega arith
publishes-append (x ∷ xs) ys = ground (arith, publishes-append xs ys)

pub pubrels-append : (xs ys : List Effect) → pubrels (xs ++ ys) ≡ pubrels xs + pubrels ys
pubrels-append [] ys = omega arith
pubrels-append (x ∷ xs) ys = ground (arith, pubrels-append xs ys)

pub stops-append : (xs ys : List Effect) → stops (xs ++ ys) ≡ stops xs + stops ys
stops-append [] ys = omega arith
stops-append (x ∷ xs) ys = ground (arith, stops-append xs ys)
