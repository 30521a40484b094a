-- ===== src/Tests.antt =====
-- The properties at concrete inputs.
mod Hosts
mod OptionTests
mod OptionsTests
mod BufferTests
mod CompressorTests
mod DomainTests
mod SerialTests
mod PipelineTests
mod ChunkingTests
mod GroupTests
mod IteratorTests
