-- ===== src/Processor/Block.antt =====
-- `processBlock`: what becomes of the audio, and what the engine gets of it.
use phonepostmix.Processor.{Processor}
